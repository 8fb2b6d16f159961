-- ===== src/InfoProvider/Argv.antt =====
-- buildArgv of src/ObexInfoProvider.cpp.
use objxp.Common.{
  ℕ, ◌≤◌, ◌≡◌, ◌≢◌, refl, ap, ◌∙◌, true, false, List, [], ◌∷◌, ◌++◌, Bytes, All, All-append, length,
  take, take_all, Lacks, join, arith,
}
use objxp.YPath.{before}
use objxp.InfoProvider.{is_delim, add_byte, str_tokens, build_argv}

-- Not empty, and without delimiters or a byte 0.
abbrev pub IsWord : Bytes → Type 0
IsWord w = (w ≢ []) × All (λ c. is_delim c ≡ false) w × Lacks 0 w

str_tokens-delim : (c : ℕ) (s : Bytes) → is_delim c ≡ true → str_tokens (c ∷ s) ≡ str_tokens s
unfolding str_tokens
str_tokens-delim c [] h = rw h refl
str_tokens-delim c (d ∷ s) h = rw h refl

str_tokens-one : (w : Bytes) → w ≢ [] → All (λ c. is_delim c ≡ false) w → str_tokens w ≡ w ∷ []
unfolding str_tokens
str_tokens-one [] n h = absurd (n refl)
str_tokens-one (c ∷ []) n (h, _) = rw h refl
str_tokens-one (c ∷ d ∷ w) n (h, (g, hs)) =
    rw (h, g) (ap (add_byte c) (str_tokens-one (d ∷ w) (λ e. cc) (g, hs)))

str_tokens-append :
    (w s : Bytes)
    → w ≢ []
    → All (λ c. is_delim c ≡ false) w
    → str_tokens (w ++ (b' ' ∷ s)) ≡ w ∷ str_tokens s
unfolding str_tokens
str_tokens-append [] s n h = absurd (n refl)
str_tokens-append (c ∷ []) s n (h, _) = rw h (ap (λ r. (c ∷ []) ∷ r) (str_tokens-delim b' ' s refl))
str_tokens-append (c ∷ d ∷ w) s n (h, (g, hs)) =
    rw (h, g) (ap (add_byte c) (str_tokens-append (d ∷ w) s (λ e. cc) (g, hs)))

str_tokens-join : (ws : List Bytes) → All IsWord ws → str_tokens (join b' ' ws) ≡ ws
unfolding join
str_tokens-join [] h = unfold str_tokens in refl
str_tokens-join (w ∷ []) ((n, h, _), _) = str_tokens-one w n h
str_tokens-join (w ∷ v ∷ ws) ((n, h, _), hs) =
    str_tokens-append w (join b' ' (v ∷ ws)) n h ∙ ap (λ r. w ∷ r) (str_tokens-join (v ∷ ws) hs)

join-Lacks : (ws : List Bytes) → All IsWord ws → Lacks 0 (join b' ' ws)
unfolding join
join-Lacks [] h = tt
join-Lacks (w ∷ []) ((n, h, l), _) = l
join-Lacks (w ∷ v ∷ ws) ((n, h, l), hs) =
    let below = join-Lacks (v ∷ ws) hs in
    All-append (λ c. c ≢ 0) w (b' ' ∷ join b' ' (v ∷ ws)) l ((λ e. absurd (omega arith)), below)

before-Lacks : (b : ℕ) (s : Bytes) → Lacks b s → before b s ≡ s
unfolding before
before-Lacks b [] h = refl
before-Lacks b (c ∷ s) h = ground (arith, before-Lacks b s h.1)

-- buildArgv of at most 100 words between single spaces gives the words.
pub build_argv-join :
    (ws : List Bytes) → All IsWord ws → length ws ≤ 100 → build_argv (join b' ' ws) ≡ ws
unfolding build_argv
build_argv-join ws h n =
    ap (λ s. take 100 (str_tokens s)) (before-Lacks 0 (join b' ' ws) (join-Lacks ws h))
    ∙ ap (take 100) (str_tokens-join ws h)
    ∙ take_all 100 ws n
