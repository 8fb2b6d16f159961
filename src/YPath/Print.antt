-- ===== src/YPath/Print.antt =====
-- What _MkYPath of src/YUtils.cpp makes of a format.
use objxp.Common.{
  ℕ, zero, suc, ◌≤◌, ◌<◌, ◌≡◌, ◌≢◌, refl, sym, ap, ◌∙◌, false, List, [], ◌∷◌, ◌++◌, map, append-nil,
  append_assoc, bytes_eq_refl, subst, none, some, Bytes, codes, Lacks, Lacks-contains, is_empty,
  length, length-append, arith, All, ◌>>=◌,
}
use objxp.PropertyTree.{assoc_get}
use objxp.YPath.{before, behind, arg_map, split_open, var_value, mk_round, mk_loop, mk_y_path}
use objxp.YPath.Split.{
  before-append, behind-append, contains-append, split_open-cons, mk_round-add_first,
}

-- A part of a format: a text, or a variable with the value that it is given.
pub data Part : Type 0 where
  fixed : Bytes → Part
  bound : Bytes → Bytes → Part

abbrev pub format_text : Part → Bytes
format_text (fixed s) = s
format_text (bound v x) = codes "${" ++ (v ++ codes "}")

abbrev pub value_text : Part → Bytes
value_text (fixed s) = s
value_text (bound v x) = x

-- A slash and a text for each part.
unfoldable pub slashed : List Bytes → Bytes
slashed [] = []
slashed (t ∷ ts) = b'/' ∷ (t ++ slashed ts)

abbrev pub format_of : List Part → Bytes
format_of ps = slashed (map format_text ps)

abbrev pub path_of : List Part → Bytes
path_of ps = slashed (map value_text ps)

-- MkYPathArg for each variable, and the map of the values.
abbrev pub args_of : List Part → List Bytes
args_of [] = []
args_of (fixed s ∷ ps) = args_of ps
args_of (bound v x ∷ ps) = (v ++ (b'=' ∷ x)) ∷ args_of ps

abbrev pub bindings : List Part → List (Bytes × Bytes)
bindings [] = []
bindings (fixed s ∷ ps) = bindings ps
bindings (bound v x ∷ ps) = (v, x) ∷ bindings ps

-- Texts and values are not empty and have no slash, a text has no '$', and a variable no '=' or '}'.
abbrev pub IsPart : Part → Type 0
IsPart (fixed s) = (s ≢ []) × Lacks b'/' s × Lacks b'$' s
IsPart (bound v x) = (v ≢ []) × Lacks b'/' v × Lacks b'=' v × Lacks b'}' v × (x ≢ []) × Lacks b'/' x

-- No variable occurs twice, nor is it bound before.
abbrev pub FreshVars : List (Bytes × Bytes) → List Part → Type 0
FreshVars m [] = Unit
FreshVars m (fixed s ∷ ps) = FreshVars m ps
FreshVars m (bound v x ∷ ps) = (assoc_get v m ≡ none) × FreshVars (m ++ ((v, x) ∷ [])) ps

-- The variables have their values in a map.
abbrev pub Bound : List (Bytes × Bytes) → List Part → Type 0
Bound m [] = Unit
Bound m (fixed s ∷ ps) = Bound m ps
Bound m (bound v x ∷ ps) = (assoc_get v m ≡ some x) × Bound m ps

not_empty : (s : Bytes) → s ≢ [] → is_empty s ≡ false
not_empty [] h = absurd (h refl)
not_empty (c ∷ s) h = refl

not_empty_append : (x : Bytes) (c : ℕ) (y : Bytes) → is_empty (x ++ (c ∷ y)) ≡ false
not_empty_append [] c y = refl
not_empty_append (d ∷ x) c y = refl

arg_map_step :
    (s v x : Bytes) (l : List Bytes) (m : List (Bytes × Bytes))
    → is_empty s ≡ false
    → before b'=' s ≡ v
    → behind b'=' s ≡ x
    → assoc_get v m ≡ none
    → arg_map (s ∷ l) m ≡ arg_map l (m ++ ((v, x) ∷ []))
unfolding arg_map
arg_map_step s v x l m e p q f = ground (arith, e, p, q, f)

arg_map-args_of :
    (m : List (Bytes × Bytes)) (ps : List Part)
    → All IsPart ps
    → FreshVars m ps
    → arg_map (args_of ps) m ≡ some (m ++ bindings ps)
arg_map-args_of m [] h f = unfold arg_map in ap (λ t. some t) (sym (append-nil m))
arg_map-args_of m (fixed s ∷ ps) (h, hs) f = arg_map-args_of m ps hs f
arg_map-args_of m (bound v x ∷ ps) (h, hs) (f, fs) =
    arg_map_step (v ++ (b'=' ∷ x)) v x (args_of ps) m (not_empty_append v b'=' x)
      (before-append b'=' v x h.2) (behind-append b'=' v x h.2) f
    ∙ arg_map-args_of (m ++ ((v, x) ∷ [])) ps hs fs
    ∙ ap (λ t. some t) (append_assoc m ((v, x) ∷ []) (bindings ps))

mk_loop-cons :
    (fuel : ℕ) (m : List (Bytes × Bytes)) (c : ℕ) (s : Bytes)
    → c ≢ b'$'
    → mk_loop (suc fuel) m (c ∷ s) ≡ (mk_loop (suc fuel) m s >>= λ t. some (c ∷ t))
unfolding mk_loop
mk_loop-cons fuel m c s h =
    ap (mk_round (λ t. mk_loop fuel m t) m (c ∷ s)) (split_open-cons c s h)
    ∙ mk_round-add_first (λ t. mk_loop fuel m t) m c s (split_open s)

slash_no_dollar : ◌≢◌ {A = ℕ} b'/' b'$'
slash_no_dollar e = absurd (omega arith)

mk_loop_text :
    (fuel : ℕ) (m : List (Bytes × Bytes)) (x s t : Bytes)
    → Lacks b'$' x
    → mk_loop (suc fuel) m s ≡ some t
    → mk_loop (suc fuel) m (x ++ s) ≡ some (x ++ t)
mk_loop_text fuel m [] s t h e = e
mk_loop_text fuel m (c ∷ x) s t h e =
    mk_loop-cons fuel m c (x ++ s) h.0
    ∙ ap (λ o. o >>= λ u. some (c ∷ u)) (mk_loop_text fuel m x s t h.1 e)

mk_loop_var :
    (fuel : ℕ) (m : List (Bytes × Bytes)) (v x s t : Bytes)
    → v ≢ []
    → Lacks b'=' v
    → Lacks b'}' v
    → assoc_get v m ≡ some x
    → mk_loop fuel m s ≡ some t
    → mk_loop (suc fuel) m (codes "${" ++ (v ++ (b'}' ∷ s))) ≡ some (x ++ t)
unfolding mk_loop split_open var_value
mk_loop_var fuel m v x s t ne hq hb e r = rw (
  contains-append b'}' v s,
  before-append b'}' v s hb,
  behind-append b'}' v s hb,
  Lacks-contains b'=' v hq,
  not_empty v ne,
  e,
  r,
)

mk_loop-format_of :
    (fuel : ℕ) (m : List (Bytes × Bytes)) (ps : List Part)
    → All IsPart ps
    → Bound m ps
    → length ps < fuel
    → mk_loop fuel m (format_of ps) ≡ some (path_of ps)
unfolding slashed
mk_loop-format_of zero m ps h b k = absurd (omega arith)
mk_loop-format_of (suc fuel) m [] h b k = unfold mk_loop split_open in refl
mk_loop-format_of (suc fuel) m (fixed s ∷ ps) (h, hs) b k =
    mk_loop_text fuel m (b'/' ∷ s) (format_of ps) (path_of ps) (slash_no_dollar, h.2)
      (mk_loop-format_of (suc fuel) m ps hs b (omega arith))
mk_loop-format_of (suc fuel) m (bound v x ∷ ps) (h, hs) (b, bs) k =
    ap (λ (t : Bytes). mk_loop (suc fuel) m (b'/' ∷ b'$' ∷ b'{' ∷ t))
      (append_assoc v (codes "}") (format_of ps))
    ∙ mk_loop_text fuel m (codes "/") (codes "${" ++ (v ++ (b'}' ∷ format_of ps))) (x ++ path_of ps)
        (slash_no_dollar, tt)
        (mk_loop_var fuel m v x (format_of ps) (path_of ps) h.0 h.2 h.3 b
          (mk_loop-format_of fuel m ps hs bs (omega arith)))

length-format_of : (ps : List Part) → length ps ≤ length (format_of ps)
unfolding slashed
length-format_of [] = omega arith
length-format_of (p ∷ ps) =
    omega (arith, length-format_of ps, length-append (format_text p) (format_of ps))

assoc_get-end :
    (m l : List (Bytes × Bytes)) (v x : Bytes)
    → assoc_get v m ≡ none
    → assoc_get v (m ++ ((v, x) ∷ l)) ≡ some x
unfolding assoc_get
assoc_get-end [] l v x h = rw (bytes_eq_refl v) refl
assoc_get-end ((k, y) ∷ m) l v x h = ground (arith, assoc_get-end m l v x)

FreshVars-Bound :
    (m : List (Bytes × Bytes)) (ps : List Part) → FreshVars m ps → Bound (m ++ bindings ps) ps
FreshVars-Bound m [] f = tt
FreshVars-Bound m (fixed s ∷ ps) f = FreshVars-Bound m ps f
FreshVars-Bound m (bound v x ∷ ps) (f, fs) = (
  assoc_get-end m (bindings ps) v x f,
  subst (λ (l : List (Bytes × Bytes)). Bound l ps) (append_assoc m ((v, x) ∷ []) (bindings ps))
      (FreshVars-Bound (m ++ ((v, x) ∷ [])) ps fs),
)

pub mk_y_path-format_of :
    (ps : List Part)
    → All IsPart ps
    → FreshVars [] ps
    → mk_y_path (format_of ps) (args_of ps) ≡ some (path_of ps)
unfolding mk_y_path
mk_y_path-format_of ps h f =
    ap (λ o. o >>= λ m. mk_loop (suc (length (format_of ps))) m (format_of ps))
      (arg_map-args_of [] ps h f)
    ∙ mk_loop-format_of (suc (length (format_of ps))) (bindings ps) ps h (FreshVars-Bound [] ps f)
        (omega (arith, length-format_of ps))
