-- ===== src/Ops/Paths/Grammar.antt =====
-- The paths that ValidAbsPath accepts are exactly the renderings of lists of safe components.
use mathlib.Core.List.{append_assoc, append-nil, append-eq-nil_iff}
use codex_commons.Prelude.{
  ℕ, ◌≡◌, ◌≢◌, ◌↔◌, true, false, none, some, List, [], ◌∷◌, ◌++◌, arith, refl, ap, sym, ◌∙◌, subst,
  inl, inr,
}
use codex_commons.Prelude.Tests.{Bool-cases, Option-cases, ◌==◌, if◌then◌else◌}
use codex_commons.Prelude.Lists.{All}
use codex_commons.Prelude.Bytes.{
  Bytes, bytes, bytes_eq, bytes_eq_iff, bytes_eq_refl, all_bytes, has_byte, has_byte-all_bytes,
  has_byte-append,
}
use codex_commons.Prelude.Results.{ok}
use codex_commons.Ops.Types.{Result}
use codex_commons.Ops.Paths.{
  is_safe, valid_component, cons_first, split_slash, has_double_slash, ends_in_slash,
  valid_components, valid_abs_path, cut_last_slash, split_parent_leaf,
}

pub record IsComponent (c : Bytes) : Type 0 where
  pub nonempty : c ≢ []
  pub not_dot : c ≢ bytes "."
  pub not_dots : c ≢ bytes ".."
  pub safe : all_bytes is_safe c ≡ true

-- Each component behind a slash.
unfoldable pub render : List Bytes → Bytes
render [] = []
render (c ∷ cs) = b'/' ∷ (c ++ render cs)

valid_component_iff : (c : Bytes) → (valid_component c ≡ none) ↔ IsComponent c
unfolding valid_component
valid_component_iff c = (
  λ h. ground (arith, bytes_eq_iff c [], bytes_eq_iff c (bytes "."), bytes_eq_iff c (bytes "..")),
  λ h. ground (arith, bytes_eq_iff c [], bytes_eq_iff c (bytes "."), bytes_eq_iff c (bytes "..")),
)

components_sound : (cs : List Bytes) → valid_components cs ≡ none → All IsComponent cs
unfolding valid_components
components_sound [] h = tt
components_sound (c ∷ cs) h = elim (Option-cases (valid_component c)) [
  | inl e ↦ ((valid_component_iff c).0 e, components_sound cs (rw (e, valid_components) at h))
  | inr (x, e) ↦ absurd (cc (rw (e, valid_components) at h))
]

components_complete : (cs : List Bytes) → All IsComponent cs → valid_components cs ≡ none
unfolding valid_components
components_complete [] h = refl
components_complete (c ∷ cs) h =
    rw ((valid_component_iff c).1 h.0, valid_components) (components_complete cs h.1)

component-slash_free : (c : Bytes) → IsComponent c → has_byte b'/' c ≡ false
component-slash_free c h = has_byte-all_bytes b'/' is_safe c (unfold is_safe in refl) h.safe

render-cons_first :
    (c : ℕ) (ps : List Bytes)
    → ps ≢ []
    → (tail : Bytes) → render ps ≡ b'/' ∷ tail
    → render (cons_first c ps) ≡ b'/' ∷ c ∷ tail
unfolding render
render-cons_first c [] n tail h = absurd (n refl)
render-cons_first c (p ∷ ps) n tail h = ground (arith, h)

split_slash-ne-nil : (s : Bytes) → split_slash s ≢ []
unfolding split_slash
split_slash-ne-nil [] h = cc
split_slash-ne-nil (c ∷ s) h = ground (arith, h)

slash_eq : (c : ℕ) (s : Bytes) → (c == b'/') ≡ true → (b'/' ∷ s) ≡ c ∷ s
slash_eq c s h = ground (arith, h)

render-split_slash : (s : Bytes) → render (split_slash s) ≡ b'/' ∷ s
unfolding split_slash render
render-split_slash [] = refl
render-split_slash (c ∷ s) = elim (Bool-cases (c == b'/')) [
  | inl slash ↦ rw slash (ap (λ t. b'/' ∷ t) (render-split_slash s ∙ slash_eq c s slash))
  | inr other ↦
      rw other (render-cons_first c (split_slash s) (split_slash-ne-nil s) s (render-split_slash s))
]

-- A text with no slash in front changes neither test.
double_slash-append :
    (c r : Bytes) → has_byte b'/' c ≡ false → has_double_slash (c ++ r) ≡ has_double_slash r
unfolding has_byte
double_slash-append [] r h = refl
double_slash-append (a ∷ c) r h =
    double_slash-cons a (c ++ r) (ground (arith, h)) ∙ double_slash-append c r (ground (arith, h))
  where
    double_slash-cons :
        (a : ℕ) (t : Bytes) → (a == b'/') ≡ false → has_double_slash (a ∷ t) ≡ has_double_slash t
    double_slash-cons a [] n = unfold has_double_slash in refl
    double_slash-cons a (b ∷ t) n = unfold has_double_slash in rw n

ends_in_slash-append :
    (c r : Bytes) → has_byte b'/' c ≡ false → ends_in_slash (c ++ r) ≡ ends_in_slash r
unfolding has_byte
ends_in_slash-append [] r h = refl
ends_in_slash-append (a ∷ c) r h =
    ends_in_slash-cons a (c ++ r) (ground (arith, h)) ∙ ends_in_slash-append c r (ground (arith, h))
  where
    ends_in_slash-cons :
        (a : ℕ) (t : Bytes) → (a == b'/') ≡ false → ends_in_slash (a ∷ t) ≡ ends_in_slash t
    ends_in_slash-cons a [] n = unfold ends_in_slash in n
    ends_in_slash-cons a (b ∷ t) n = unfold ends_in_slash in refl

render_tests :
    (cs : List Bytes)
    → All IsComponent cs
    → (has_double_slash (render cs) ≡ false) × (ends_in_slash (render cs) ≡ false)
unfolding render has_double_slash ends_in_slash has_byte
render_tests [] h = (refl, refl)
render_tests ([] ∷ cs) h = absurd (h.0.nonempty refl)
render_tests ((a ∷ c) ∷ cs) h =
    let (no_double, no_end) = render_tests cs h.1 in
    let free = component-slash_free (a ∷ c) h.0 in
    let body_double = double_slash-append (a ∷ c) (render cs) free ∙ no_double in
    let body_end = ends_in_slash-append (a ∷ c) (render cs) free ∙ no_end in
    let other : (a == b'/') ≡ false = ground (arith, free) in
    (ground (arith, other, body_double), body_end)

split_slash-append :
    (c r : Bytes) → has_byte b'/' c ≡ false → split_slash (c ++ b'/' ∷ r) ≡ c ∷ split_slash r
unfolding split_slash has_byte
split_slash-append [] r h = refl
split_slash-append (a ∷ c) r h = ground (arith, h, split_slash-append c r)

split_slash-free : (c : Bytes) → has_byte b'/' c ≡ false → split_slash c ≡ c ∷ []
unfolding split_slash has_byte
split_slash-free [] h = refl
split_slash-free (a ∷ c) h = ground (arith, h, split_slash-free c)

split_slash-render :
    (c : Bytes) (cs : List Bytes) → All IsComponent (c ∷ cs) → split_slash (c ++ render cs) ≡ c ∷ cs
unfolding render
split_slash-render c [] h = rw append-nil (split_slash-free c (component-slash_free c h.0))
split_slash-render c (d ∷ cs) h =
    split_slash-append c (d ++ render cs) (component-slash_free c h.0)
    ∙ ap (λ ps. c ∷ ps) (split_slash-render d cs h.1)

valid_abs_path_of_tests :
    (rest : Bytes)
    → rest ≢ []
    → has_double_slash (b'/' ∷ rest) ≡ false
    → ends_in_slash (b'/' ∷ rest) ≡ false
    → valid_components (split_slash rest) ≡ none
    → valid_abs_path (b'/' ∷ rest) ≡ none
unfolding valid_abs_path
valid_abs_path_of_tests rest n d e v = ground (arith, bytes_eq_iff (b'/' ∷ rest) (bytes "/"))

pub valid_abs_path-render :
    (c : Bytes) (cs : List Bytes)
    → All IsComponent (c ∷ cs)
    → valid_abs_path (render (c ∷ cs)) ≡ none
unfolding render
valid_abs_path-render c cs h =
    let (no_double, no_end) = render_tests (c ∷ cs) h in
    valid_abs_path_of_tests (c ++ render cs) (λ e. h.0.nonempty (append-eq-nil_iff.0 e).0) no_double
      no_end (ap valid_components (split_slash-render c cs h) ∙ components_complete (c ∷ cs) h)

-- The test accepts a path just when the path is a list of safe components, at least one, each
-- behind a slash.
pub valid_abs_path_iff :
    (path : Bytes)
    → (valid_abs_path path ≡ none)
      ↔ ((c : Bytes) × (cs : List Bytes) × All IsComponent (c ∷ cs) × (path ≡ render (c ∷ cs)))
valid_abs_path_iff path = (sound path, λ (c, cs, h, e). rw e (valid_abs_path-render c cs h))
  where
    parts :
        (rest : Bytes) (ps : List Bytes)
        → split_slash rest ≡ ps
        → valid_components (split_slash rest) ≡ none
        → (c : Bytes) × (cs : List Bytes) × All IsComponent (c ∷ cs)
          × (b'/' ∷ rest ≡ render (c ∷ cs))
    parts rest [] e v = absurd (split_slash-ne-nil rest e)
    parts rest (c ∷ cs) e v = (
      c,
      cs,
      components_sound (c ∷ cs) (subst (λ ps. valid_components ps ≡ none) e v),
      sym (render-split_slash rest) ∙ ap render e,
    )

    sound :
        (path : Bytes)
        → valid_abs_path path ≡ none
        → (c : Bytes) × (cs : List Bytes) × All IsComponent (c ∷ cs) × (path ≡ render (c ∷ cs))
    sound [] h = absurd (unfold valid_abs_path in cc h)
    sound (a ∷ rest) h =
        let slash : a ≡ b'/' = unfold valid_abs_path in ground (arith, h) in
        let v : valid_components (split_slash rest) ≡ none =
          unfold valid_abs_path in ground (arith, h) in
        rw slash (parts rest (split_slash rest) refl v)

-- Only the slash and safe bytes stand in a path.
pub render-free :
    (b : ℕ) (cs : List Bytes)
    → is_safe b ≡ false
    → (b'/' == b) ≡ false
    → All IsComponent cs
    → has_byte b (render cs) ≡ false
unfolding render has_byte
render-free b [] n m h = refl
render-free b (c ∷ cs) n m h = ground (
  arith,
  m,
  has_byte-append b c (render cs),
  has_byte-all_bytes b is_safe c n h.0.safe,
  render-free b cs n m h.1,
)

cut_last_slash-free : (s : Bytes) → has_byte b'/' s ≡ false → cut_last_slash s ≡ none
unfolding cut_last_slash has_byte
cut_last_slash-free [] h = refl
cut_last_slash-free (c ∷ s) h = ground (arith, h, cut_last_slash-free s)

cut_last_slash-append :
    (before leaf : Bytes)
    → has_byte b'/' leaf ≡ false
    → cut_last_slash (before ++ b'/' ∷ leaf) ≡ some (before, leaf)
unfolding cut_last_slash
cut_last_slash-append [] leaf h = rw (cut_last_slash-free leaf h, cut_last_slash)
cut_last_slash-append (a ∷ before) leaf h = rw (cut_last_slash-append before leaf h, cut_last_slash)

render-append : (cs : List Bytes) (c : Bytes) → render (cs ++ c ∷ []) ≡ render cs ++ b'/' ∷ c
unfolding render
render-append [] c = ap (λ t. b'/' ∷ t) (append-nil c)
render-append (d ∷ cs) c =
    ap (λ t. b'/' ∷ d ++ t) (render-append cs c)
    ∙ ap (λ t. b'/' ∷ t) (sym (append_assoc d (render cs) (b'/' ∷ c)))

All-append-IsComponent :
    (cs : List Bytes) (c : Bytes)
    → All IsComponent cs
    → IsComponent c
    → All IsComponent (cs ++ c ∷ [])
All-append-IsComponent [] c h k = (k, tt)
All-append-IsComponent (d ∷ cs) c h k = (h.0, All-append-IsComponent cs c h.1 k)

valid_abs_path-append :
    (cs : List Bytes) (c : Bytes)
    → All IsComponent cs
    → IsComponent c
    → valid_abs_path (render (cs ++ c ∷ [])) ≡ none
valid_abs_path-append [] c h k = valid_abs_path-render c [] (k, tt)
valid_abs_path-append (d ∷ cs) c h k =
    valid_abs_path-render d (cs ++ c ∷ []) (h.0, All-append-IsComponent cs c h.1 k)

-- The directory that holds the last component: the root, or the components before it.
abbrev pub parent_of : List Bytes → Bytes
parent_of [] = bytes "/"
parent_of (c ∷ cs) = render (c ∷ cs)

-- Every path of safe components comes apart into its last component and the directory of the others.
pub split_parent_leaf-render :
    (cs : List Bytes) (leaf : Bytes)
    → All IsComponent cs
    → IsComponent leaf
    → split_parent_leaf (render (cs ++ leaf ∷ [])) ≡ ok (parent_of cs, leaf)
unfolding split_parent_leaf
split_parent_leaf-render cs leaf h k =
    let cut =
      ap cut_last_slash (render-append cs leaf)
      ∙ cut_last_slash-append (render cs) leaf (component-slash_free leaf k) in
    rw (valid_abs_path-append cs leaf h k, cut, split_parent_leaf) (parents cs)
  where
    parents :
        (ds : List Bytes)
        → if◌then◌else◌ {A = Result (Bytes × Bytes)}
            (bytes_eq (render ds) [])
            (ok (bytes "/", leaf))
            (ok (render ds, leaf))
          ≡ ok (parent_of ds, leaf)
    parents [] = unfold render in rw (bytes_eq_refl [])
    parents (d ∷ ds) = unfold render bytes_eq in refl
