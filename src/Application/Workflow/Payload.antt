-- ===== src/Application/Workflow/Payload.antt =====
-- core/vericlose/application/actions.py: the payload of an action as a dict, and what an edit leaves
-- of it.
use veri_close.Prelude.{
  ◌≡◌, ◌∙◌, refl, sym, String, str_eq, str_leb, str_eq→eq, eq_iff, strip_str, true, false, Option,
  none, some, [], ◌∷◌, ok, arith, sort_by, insert_sorted, Bool-cases, inl, inr, all, contains,
  if◌then◌else◌,
}
use text.Mathlib.TextPositions.{compare_refl}
use veri_close.Domain.Actions.{StringPairs}
use veri_close.Reconciliation.Policy.{get}
use veri_close.Application.Workflow.{put, put_all, dict_of}
use veri_close.Application.Workflow.Review.{editable, only_editable, edit_payload, by_field}

abbrev or_else : Option String → Option String → Option String
or_else none o = o
or_else (some v) o = some v

-- the value that the last of the pairs of a field has
unfoldable last_value : StringPairs → String → Option String
last_value [] f = none
last_value ((k, v) ∷ d) f = or_else (last_value d f) (if str_eq k f then some v else none)

differ : (j k f : String) → str_eq j k ≡ true → str_eq k f ≡ false → str_eq j f ≡ false
differ j k f h ne = rw (str_eq→eq j k h) ne

get-put_other :
    (k v f : String) (d : StringPairs) → str_eq k f ≡ false → get (put k v d) f ≡ get d f
unfolding get put
get-put_other k v f [] ne = ground arith
get-put_other k v f ((j, w) ∷ d) ne = elim (Bool-cases (str_eq j k)) [
  | inl same ↦ ground (arith, differ j k f same ne)
  | inr other ↦ ground (arith, get-put_other k v f d ne)
]

get-put_same : (v f : String) (d : StringPairs) → get (put f v d) f ≡ some v
unfolding get put
get-put_same v f [] = ground (arith, eq_iff f f)
get-put_same v f ((j, w) ∷ d) = ground (arith, get-put_same v f d)

get-put_all :
    (f : String) (xs d : StringPairs) → get (put_all xs d) f ≡ or_else (last_value xs f) (get d f)
unfolding put_all last_value
get-put_all f [] d = refl
get-put_all f ((k, v) ∷ xs) d = elim (Bool-cases (str_eq k f)) [
  | inl same ↦
      rw (str_eq→eq k f same)
        (get-put_all f xs (put f v d) ∙ rw (get-put_same v f d) (ground (arith, eq_iff f f)))
  | inr other ↦ get-put_all f xs (put k v d) ∙ rw (get-put_other k v f d other) (ground arith)
]

get-dict_of : (f : String) (xs : StringPairs) → get (dict_of xs) f ≡ last_value xs f
unfolding dict_of get
get-dict_of f xs = get-put_all f xs [] ∙ ground arith

last-put_other :
    (k v f : String) (d : StringPairs)
    → str_eq k f ≡ false
    → last_value (put k v d) f ≡ last_value d f
unfolding last_value put
last-put_other k v f [] ne = ground arith
last-put_other k v f ((j, w) ∷ d) ne = elim (Bool-cases (str_eq j k)) [
  | inl same ↦ ground (arith, differ j k f same ne)
  | inr other ↦ ground (arith, last-put_other k v f d ne)
]

str_leb_refl : (s : String) → str_leb s s ≡ true
str_leb_refl s = rw (compare_refl s) refl

-- two pairs that the sort does not keep in order are of different fields
disordered : (j k f : String) → str_leb j k ≡ false → str_eq j f ≡ true → str_eq k f ≡ false
disordered j k f h same = elim (Bool-cases (str_eq k f)) [
  | inl both ↦
      let e : j ≡ k = str_eq→eq j f same ∙ sym (str_eq→eq k f both) in
      absurd (ground (arith, str_leb_refl k))
  | inr other ↦ other
]

last-insert_sorted :
    (f : String) (x : String × String) (ys : StringPairs)
    → last_value (insert_sorted by_field x ys) f ≡ last_value (x ∷ ys) f
unfolding last_value insert_sorted
last-insert_sorted f x [] = refl
last-insert_sorted f (j, v) ((k, w) ∷ ys) = elim (Bool-cases (str_leb j k)) [
  | inl ordered ↦ ground arith
  | inr later ↦ ground (arith, last-insert_sorted f (j, v) ys, disordered j k f later)
]

last-sort_by :
    (f : String) (xs : StringPairs) → last_value (sort_by by_field xs) f ≡ last_value xs f
unfolding last_value sort_by
last-sort_by f [] = refl
last-sort_by f (x ∷ xs) = last-insert_sorted f x (sort_by by_field xs) ∙ rw (last-sort_by f xs) refl

-- The field has at most one pair.
abbrev IsOnce : String → StringPairs → Type 0
IsOnce f [] = Unit
IsOnce f ((k, v) ∷ d) = (str_eq k f ≡ true → last_value d f ≡ none) × IsOnce f d

put-IsOnce : (k v f : String) (d : StringPairs) → IsOnce f d → IsOnce f (put k v d)
unfolding put last_value
put-IsOnce k v f [] o = (λ h. refl, tt)
put-IsOnce k v f ((j, w) ∷ d) (alone, o) = elim (Bool-cases (str_eq j k)) [
  | inl same ↦ rw same (alone, o)
  | inr other ↦ rw other (
    λ h.
        let ne : str_eq k f ≡ false = ground (arith, str_eq→eq j f h, eq_iff j k, eq_iff k f) in
        last-put_other k v f d ne ∙ alone h,
    put-IsOnce k v f d o,
  )
]

put_all-IsOnce : (f : String) (xs d : StringPairs) → IsOnce f d → IsOnce f (put_all xs d)
unfolding put_all
put_all-IsOnce f [] d o = o
put_all-IsOnce f ((k, v) ∷ xs) d o = put_all-IsOnce f xs (put k v d) (put-IsOnce k v f d o)

get_once : (f : String) (d : StringPairs) → IsOnce f d → get d f ≡ last_value d f
unfolding get last_value
get_once f [] o = refl
get_once f ((k, v) ∷ d) (alone, o) = elim (Bool-cases (str_eq k f)) [
  | inl same ↦ rw (alone same) (rw same refl)
  | inr other ↦ ground (arith, get_once f d o)
]

last-edit_payload :
    (f : String) (edits p q : StringPairs)
    → contains f editable ≡ false
    → only_editable edits ≡ true
    → edit_payload edits p ≡ ok q
    → last_value q f ≡ last_value p f
unfolding edit_payload only_editable all
last-edit_payload f [] p q fixed known h = ground arith
last-edit_payload f ((k, v) ∷ edits) p q fixed known h = elim (Bool-cases (str_eq k f)) [
  | inl same ↦ absurd (ground (arith, str_eq→eq k f same))
  | inr other ↦
      let rest =
        last-edit_payload f edits (put k (strip_str v) p) q fixed (ground arith) (ground arith) in
      rest ∙ last-put_other k (strip_str v) f p other
]

-- A field that no reviewer may edit reads the same in the payload that an edit stores.
pub edit_payload-Keeps :
    (f : String) (edits p q : StringPairs)
    → contains f editable ≡ false
    → only_editable edits ≡ true
    → edit_payload edits (dict_of p) ≡ ok q
    → get (dict_of p) f ≡ get (dict_of (sort_by by_field q)) f
unfolding dict_of
edit_payload-Keeps f edits p q fixed known h =
    let once = get_once f (dict_of p) (put_all-IsOnce f p [] tt) in
    let edited = last-edit_payload f edits (dict_of p) q fixed known h in
    let stored = get-dict_of f (sort_by by_field q) ∙ last-sort_by f q in
    once ∙ sym edited ∙ sym stored
