-- ===== src/YPath/Back.antt =====
-- What ParseYPath of src/YUtils.cpp reads from a path that _MkYPath made.
use objxp.Common.{
  ℕ, ◌≡◌, ◌≢◌, refl, sym, ap, ◌∙◌, false, List, [], ◌∷◌, ◌++◌, map, append-nil, append_assoc, some,
  Bytes, codes, getlines, Lacks, Lacks-contains, bytes_eq_refl, All, All-append, arith, ◌>>=◌,
}
use objxp.Tree.Callbacks.{object_insert}
use objxp.Client.Registry.{object_insert_new}
use objxp.YPath.{is_var, var_name, part_loop, mk_y_path, parse_y_path}
use objxp.YPath.Split.{before-append, contains-append, getlines-append, getlines_one}
use objxp.YPath.Print.{
  Part, fixed, bound, format_text, value_text, slashed, format_of, path_of, args_of, bindings,
  IsPart, FreshVars, mk_y_path-format_of,
}

-- Not empty and without a slash.
abbrev pub IsText : Bytes → Type 0
IsText t = (t ≢ []) × Lacks b'/' t

one_text : (t : Bytes) → IsText t → getlines b'/' t ≡ t ∷ []
one_text [] (h, l) = absurd (h refl)
one_text (c ∷ t) (h, l) = getlines_one b'/' c t l

-- The parts of a path behind its first slash.
pub getlines-slashed :
    (t : Bytes) (ts : List Bytes)
    → IsText t
    → All IsText ts
    → getlines b'/' (t ++ slashed ts) ≡ t ∷ ts
unfolding slashed
getlines-slashed t [] h hs = ap (getlines b'/') (append-nil t) ∙ one_text t h
getlines-slashed t (u ∷ us) h (g, gs) =
    getlines-append b'/' t (u ++ slashed us) h.1 ∙ ap (λ l. t ∷ l) (getlines-slashed u us g gs)

braced-Lacks :
    (b : ℕ) (v : Bytes)
    → ◌≢◌ {A = ℕ} b'$' b
    → ◌≢◌ {A = ℕ} b'{' b
    → ◌≢◌ {A = ℕ} b'}' b
    → Lacks b v
    → Lacks b (codes "${" ++ (v ++ codes "}"))
braced-Lacks b v d o c h = (d, (o, All-append (λ x. x ≢ b) v (codes "}") h (c, tt)))

format_text-IsText : (p : Part) → IsPart p → IsText (format_text p)
format_text-IsText (fixed s) h = (h.0, h.1)
format_text-IsText (bound v x) h = (
  (λ e. cc),
  braced-Lacks b'/' v (λ e. absurd (omega arith)) (λ e. absurd (omega arith))
      (λ e. absurd (omega arith)) h.1,
)

value_text-IsText : (p : Part) → IsPart p → IsText (value_text p)
value_text-IsText (fixed s) h = (h.0, h.1)
value_text-IsText (bound v x) h = (h.4, h.5)

no_var : (s : Bytes) → Lacks b'$' s → is_var s ≡ false
no_var [] h = refl
no_var (c ∷ []) h = refl
no_var (c ∷ d ∷ s) h = ground arith

var_name-braced :
    (v : Bytes) → Lacks b'=' v → Lacks b'}' v → var_name (codes "${" ++ (v ++ codes "}")) ≡ some v
var_name-braced v hq hb =
    let var : Bytes = codes "${" ++ v in
    let close : Lacks b'}' var = ((λ e. absurd (omega arith)), ((λ e. absurd (omega arith)), hb)) in
    rw
      (
        Lacks-contains b'=' (codes "${" ++ (v ++ codes "}")) (
            braced-Lacks b'=' v (λ e. absurd (omega arith)) (λ e. absurd (omega arith))
              (λ e. absurd (omega arith)) hq),
        contains-append b'}' var [],
        before-append b'}' var [] close,
      )
      refl

pub part_loop-parts :
    (ps : List Part) (m : List (Bytes × Bytes))
    → All IsPart ps
    → FreshVars m ps
    → part_loop (map format_text ps) (map value_text ps) m ≡ some (m ++ bindings ps)
unfolding part_loop
part_loop-parts [] m h f = ap (λ t. some t) (sym (append-nil m))
part_loop-parts (fixed s ∷ ps) m (h, hs) f =
    rw (no_var s h.2, bytes_eq_refl s) (part_loop-parts ps m hs f)
part_loop-parts (bound v x ∷ ps) m (h, hs) (f, fs) =
    ap (λ o. o >>= λ w. part_loop (map format_text ps) (map value_text ps) (object_insert w x m))
      (var_name-braced v h.2 h.3)
    ∙ ap (part_loop (map format_text ps) (map value_text ps)) (object_insert_new v x m f)
    ∙ part_loop-parts ps (m ++ ((v, x) ∷ [])) hs fs
    ∙ ap (λ t. some t) (append_assoc m ((v, x) ∷ []) (bindings ps))

All-map :
    (f : Part → Bytes)
    → ((p : Part) → IsPart p → IsText (f p))
    → (ps : List Part) → All IsPart ps
    → All IsText (map f ps)
All-map f g [] h = tt
All-map f g (p ∷ ps) (h, hs) = (g p h, All-map f g ps hs)

-- For a format of at least one part, each behind a slash, where texts and values are not empty and
-- have no slash, texts no '$' and variables no '=' or '}', and no variable occurs twice: _MkYPath
-- with a value for each variable puts the values in the places of the variables, and ParseYPath by
-- the same format reads from that path each variable with its value and nothing else.
pub parse_y_path-mk_y_path :
    (p : Part) (ps : List Part)
    → All IsPart (p ∷ ps)
    → FreshVars [] (p ∷ ps)
    → (mk_y_path (format_of (p ∷ ps)) (args_of (p ∷ ps)) ≡ some (path_of (p ∷ ps)))
      × (parse_y_path [] (format_of (p ∷ ps)) (path_of (p ∷ ps)) ≡ some (bindings (p ∷ ps)))
parse_y_path-mk_y_path p ps (h, hs) f = (
  mk_y_path-format_of (p ∷ ps) (h, hs) f,
  unfold parse_y_path slashed in
      rw
        (
          getlines-slashed (format_text p) (map format_text ps) (format_text-IsText p h)
              (All-map format_text format_text-IsText ps hs),
          getlines-slashed (value_text p) (map value_text ps) (value_text-IsText p h)
              (All-map value_text value_text-IsText ps hs),
        )
        (part_loop-parts (p ∷ ps) [] (h, hs) f),
)
