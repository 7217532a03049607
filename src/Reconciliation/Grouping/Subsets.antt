-- ===== src/Reconciliation/Grouping/Subsets.antt =====
-- `itertools.combinations` as rules/grouping.py uses it: exactly the sublists of one length.
use veri_close.Prelude.{
  ℕ, zero, suc, ◌≡◌, refl, ap, ◌∙◌, ◌⊎◌, inl, inr, List, [], ◌∷◌, ◌++◌, map, length, arith, Bool,
  true, filter, Bool-cases,
}
use mathlib.Core.List.{Sublistᴰ, Memᴰ}
use veri_close.Reconciliation.Grouping.{combinations}

module _ {ℓ} {A : Type ℓ} where
  pub mem_append_left : {x : A} (xs ys : List A) → Memᴰ x xs → Memᴰ x (xs ++ ys)
  mem_append_left (y ∷ xs) ys (Memᴰ.head e) = Memᴰ.head e
  mem_append_left (y ∷ xs) ys (Memᴰ.tail m) = Memᴰ.tail (mem_append_left xs ys m)
  mem_append_left [] ys m = elim m [ ]

  pub mem_append_right : {x : A} (xs ys : List A) → Memᴰ x ys → Memᴰ x (xs ++ ys)
  mem_append_right [] ys m = m
  mem_append_right (y ∷ xs) ys m = Memᴰ.tail (mem_append_right xs ys m)

  pub mem_append-cases : {x : A} (xs ys : List A) → Memᴰ x (xs ++ ys) → Memᴰ x xs ⊎ Memᴰ x ys
  mem_append-cases [] ys m = inr m
  mem_append-cases (y ∷ xs) ys (Memᴰ.head e) = inl (Memᴰ.head e)
  mem_append-cases (y ∷ xs) ys (Memᴰ.tail m) = elim (mem_append-cases xs ys m) [
    | inl n ↦ inl (Memᴰ.tail n)
    | inr n ↦ inr n
  ]

  pub mem-filter_intro :
      {x : A} (p : A → Bool) (xs : List A) → Memᴰ x xs → p x ≡ true → Memᴰ x (filter p xs)
  unfolding filter
  mem-filter_intro p [] m h = elim m [ ]
  mem-filter_intro p (y ∷ ys) (Memᴰ.head e) h = rw (← e, h) (Memᴰ.head refl)
  mem-filter_intro p (y ∷ ys) (Memᴰ.tail m) h = elim (Bool-cases (p y)) [
    | inl t ↦ rw t (Memᴰ.tail (mem-filter_intro p ys m h))
    | inr f ↦ rw f (mem-filter_intro p ys m h)
  ]

  keep_head :
      {x y : A} (p : A → Bool) (ys zs : List A)
      → p y ≡ true
      → (Memᴰ x zs → Memᴰ x ys × (p x ≡ true))
      → Memᴰ x (y ∷ zs)
      → Memᴰ x (y ∷ ys) × (p x ≡ true)
  keep_head p ys zs t rec (Memᴰ.head e) = (Memᴰ.head e, ap p e ∙ t)
  keep_head p ys zs t rec (Memᴰ.tail m) = let (n, h) = rec m in (Memᴰ.tail n, h)

  pub mem-filter_elim :
      {x : A} (p : A → Bool) (xs : List A) → Memᴰ x (filter p xs) → Memᴰ x xs × (p x ≡ true)
  unfolding filter
  mem-filter_elim p [] m = elim m [ ]
  mem-filter_elim {x = x} p (y ∷ ys) m = elim (Bool-cases (p y)) [
    | inl t ↦ keep_head p ys (filter p ys) t (mem-filter_elim p ys) (rw t at m)
    | inr f ↦ let (n, h) = mem-filter_elim {x = x} p ys (rw f at m) in (Memᴰ.tail n, h)
  ]

module _ {ℓ} {A : Type ℓ} where
  mem_map_cons :
      {x y : A} {t : List A} (ls : List (List A))
      → x ≡ y
      → Memᴰ t ls
      → Memᴰ (x ∷ t) (map (◌∷◌ y) ls)
  mem_map_cons (l ∷ ls) e (Memᴰ.head p) = Memᴰ.head (cc)
  mem_map_cons (l ∷ ls) e (Memᴰ.tail m) = Memᴰ.tail (mem_map_cons ls e m)
  mem_map_cons [] e m = elim m [ ]

  mem_map_cons_inv :
      {y : A} {h : List A} (ls : List (List A))
      → Memᴰ h (map (◌∷◌ y) ls)
      → (t : List A) × (h ≡ y ∷ t) × Memᴰ t ls
  mem_map_cons_inv (l ∷ ls) (Memᴰ.head p) = (l, p, Memᴰ.head refl)
  mem_map_cons_inv (l ∷ ls) (Memᴰ.tail m) =
      let (t, e, n) = mem_map_cons_inv ls m in (t, e, Memᴰ.tail n)
  mem_map_cons_inv [] m = elim m [ ]

  nil_of_length : (h : List A) → length h ≡ 0 → h ≡ []
  nil_of_length [] e = refl
  nil_of_length (x ∷ h) e = absurd (omega arith)

  -- Every sublist of length `n` is one of the combinations of size `n`.
  pub combinations_complete :
      {h xs : List A} → Sublistᴰ h xs → (n : ℕ) → length h ≡ n → Memᴰ h (combinations n xs)
  unfolding combinations
  combinations_complete Sublistᴰ.slnil zero e = Memᴰ.head refl
  combinations_complete Sublistᴰ.slnil (suc n) e = absurd (omega arith)
  combinations_complete (Sublistᴰ.cons {l₁ = l₁} s) zero e = Memᴰ.head (nil_of_length l₁ e)
  combinations_complete (Sublistᴰ.cons {l₂ = l₂} s) (suc n) e =
      mem_append_right _ (combinations (suc n) l₂) (combinations_complete s (suc n) e)
  combinations_complete (Sublistᴰ.cons-cons p s) zero e = absurd (omega arith)
  combinations_complete (Sublistᴰ.cons-cons {l₂ = l₂} p s) (suc n) e =
      mem_append_left _ (combinations (suc n) l₂)
        (mem_map_cons (combinations n l₂) p (combinations_complete s n (omega arith)))

  empty_sublist : (xs : List A) → Sublistᴰ [] xs
  empty_sublist [] = Sublistᴰ.slnil
  empty_sublist (x ∷ xs) = Sublistᴰ.cons (empty_sublist xs)

  -- Every combination of size `n` is a sublist of length `n`.
  pub combinations_sound :
      (n : ℕ) (xs h : List A) → Memᴰ h (combinations n xs) → Sublistᴰ h xs × (length h ≡ n)
  unfolding combinations
  combinations_sound zero xs h (Memᴰ.head e) = rw e (empty_sublist xs, refl)
  combinations_sound zero xs h (Memᴰ.tail m) = elim m [ ]
  combinations_sound (suc n) [] h m = elim m [ ]
  combinations_sound (suc n) (x ∷ xs) h m =
      elim (mem_append-cases (map (◌∷◌ x) (combinations n xs)) (combinations (suc n) xs) m) [
        | inl here ↦
            let (t, e, k) = mem_map_cons_inv (combinations n xs) here in
            let (s, l) = combinations_sound n xs t k in rw e (Sublistᴰ.cons-cons refl s, ap suc l)
        | inr later ↦ let (s, l) = combinations_sound (suc n) xs h later in (Sublistᴰ.cons s, l)
      ]
