-- ===== src/Queue/Order.antt =====
-- The queue of one device: the statements with `order by f_cnt`, against a list that is kept sorted.
use chirpstack_network_serve.Prelude.{
  ℕ, ◌≤◌, ◌≡◌, refl, Bool, true, false, List, [], ◌∷◌, ◌++◌, arith, ltb, ◌==◌, ◌||◌, ◌&&◌,
  if◌then◌else◌, Bool-cases, inl, inr, All, All-mono,
}
use chirpstack_network_serve.Queue.{Item, precedes, remove_if, by_f_cnt, insert_by_f_cnt}

-- Each item precedes those behind it.
abbrev pub IsRanked : (ℕ → ℕ) → List Item → Type 0
IsRanked tie [] = Unit
IsRanked tie (i ∷ is) = All (λ x. precedes tie i x ≡ true) is × IsRanked tie is

-- The frame-counters do not decrease.
abbrev pub IsSorted : List Item → Type 0
IsSorted [] = Unit
IsSorted (i ∷ is) = All (λ x. i.f_cnt ≤ x.f_cnt) is × IsSorted is

pub All-insert_by_f_cnt {κ} :
    (tie : ℕ → ℕ)
    → (P : Item → Type κ) (a : Item) (xs : List Item) → P a
    → All P xs
    → All P (insert_by_f_cnt tie a xs)
unfolding insert_by_f_cnt
All-insert_by_f_cnt tie P a [] p h = (p, tt)
All-insert_by_f_cnt tie P a (x ∷ xs) p h = elim (Bool-cases (precedes tie a x)) [
  | inl e ↦ rw (e, insert_by_f_cnt) (p, h)
  | inr e ↦ rw (e, insert_by_f_cnt) (h.0, All-insert_by_f_cnt tie P a xs p h.1)
]

precedes_trans :
    (tie : ℕ → ℕ) (a b c : Item)
    → precedes tie a b ≡ true
    → precedes tie b c ≡ true
    → precedes tie a c ≡ true
precedes_trans tie a b c h k = ground arith

precedes_total : (tie : ℕ → ℕ) (a b : Item) → precedes tie a b ≡ false → precedes tie b a ≡ true
precedes_total tie a b h = ground arith

IsRanked-insert_by_f_cnt :
    (tie : ℕ → ℕ) (a : Item) (xs : List Item)
    → IsRanked tie xs
    → IsRanked tie (insert_by_f_cnt tie a xs)
unfolding insert_by_f_cnt
IsRanked-insert_by_f_cnt tie a [] s = (tt, tt)
IsRanked-insert_by_f_cnt tie a (x ∷ xs) s = elim (Bool-cases (precedes tie a x)) [
  | inl e ↦ rw (e, insert_by_f_cnt) ((e, All-mono xs (λ y h. precedes_trans tie a x y e h) s.0), s)
  | inr e ↦
      rw (e, insert_by_f_cnt)
        (
          All-insert_by_f_cnt tie (λ y. precedes tie x y ≡ true) a xs (precedes_total tie a x e)
              s.0,
          IsRanked-insert_by_f_cnt tie a xs s.1,
        )
]

IsRanked-by_f_cnt : (tie : ℕ → ℕ) (e : ℕ) (is : List Item) → IsRanked tie (by_f_cnt tie e is)
unfolding by_f_cnt
IsRanked-by_f_cnt tie e [] = tt
IsRanked-by_f_cnt tie e (i ∷ is) = elim (Bool-cases (i.dev_eui == e)) [
  | inl h ↦
      rw (h, by_f_cnt)
        (IsRanked-insert_by_f_cnt tie i (by_f_cnt tie e is) (IsRanked-by_f_cnt tie e is))
  | inr h ↦ rw (h, by_f_cnt) (IsRanked-by_f_cnt tie e is)
]

IsRanked-IsSorted : (tie : ℕ → ℕ) (is : List Item) → IsRanked tie is → IsSorted is
IsRanked-IsSorted tie [] s = tt
IsRanked-IsSorted tie (i ∷ is) s =
    (All-mono is (λ x h. ground arith) s.0, IsRanked-IsSorted tie is s.1)

pub IsSorted-by_f_cnt : (tie : ℕ → ℕ) (e : ℕ) (is : List Item) → IsSorted (by_f_cnt tie e is)
IsSorted-by_f_cnt tie e is = IsRanked-IsSorted tie (by_f_cnt tie e is) (IsRanked-by_f_cnt tie e is)

-- The frame-counter is smaller, or equal with a smaller rank.
abbrev pub goes_before : (ℕ → ℕ) → Item → Item → Bool
goes_before tie a x = ltb a.f_cnt x.f_cnt || (a.f_cnt == x.f_cnt && ltb (tie a.id) (tie x.id))

-- The abstract operation: a new item goes behind those of smaller frame-counter, and
-- among those of equal frame-counter where the rank of its id puts it.
abbrev pub enqueue : (ℕ → ℕ) → Item → List Item → List Item
enqueue tie a [] = a ∷ []
enqueue tie a (x ∷ xs) = if goes_before tie a x then a ∷ x ∷ xs else x ∷ enqueue tie a xs

enqueue-insert_by_f_cnt :
    (tie : ℕ → ℕ)
    → (a b : Item) (xs : List Item)
    → insert_by_f_cnt tie a (enqueue tie b xs) ≡ enqueue tie b (insert_by_f_cnt tie a xs)
unfolding insert_by_f_cnt
enqueue-insert_by_f_cnt tie a b [] = ground arith
enqueue-insert_by_f_cnt tie a b (x ∷ xs) = ground (arith, enqueue-insert_by_f_cnt tie a b xs)

pub by_f_cnt-snoc :
    (tie : ℕ → ℕ)
    → (e : ℕ) (is : List Item) (b : Item)
    → by_f_cnt tie e (is ++ b ∷ [])
      ≡ (if b.dev_eui == e then enqueue tie b (by_f_cnt tie e is) else by_f_cnt tie e is)
unfolding by_f_cnt insert_by_f_cnt
by_f_cnt-snoc tie e [] b = ground arith
by_f_cnt-snoc tie e (i ∷ is) b =
    ground (arith, by_f_cnt-snoc tie e is b, enqueue-insert_by_f_cnt tie i b (by_f_cnt tie e is))

-- An item that comes first stays first when others are removed.
insert_by_f_cnt-first :
    (tie : ℕ → ℕ)
    → (a : Item) (xs : List Item) → All (λ x. precedes tie a x ≡ true) xs
    → insert_by_f_cnt tie a xs ≡ a ∷ xs
unfolding insert_by_f_cnt
insert_by_f_cnt-first tie a [] h = refl
insert_by_f_cnt-first tie a (x ∷ xs) h = ground (arith, h.0)

pub All-remove_if {κ} :
    (P : Item → Type κ) (test : Item → Bool) (is : List Item) → All P is → All P (remove_if test is)
unfolding remove_if
All-remove_if P test [] a = tt
All-remove_if P test (i ∷ is) a = elim (Bool-cases (test i)) [
  | inl e ↦ rw (e, remove_if) (All-remove_if P test is a.1)
  | inr e ↦ rw (e, remove_if) (a.0, All-remove_if P test is a.1)
]

remove_if-insert_by_f_cnt :
    (tie : ℕ → ℕ)
    → (test : Item → Bool) (a : Item) (xs : List Item) → IsRanked tie xs
    → remove_if test (insert_by_f_cnt tie a xs)
      ≡ (if test a then remove_if test xs else insert_by_f_cnt tie a (remove_if test xs))
unfolding remove_if insert_by_f_cnt
remove_if-insert_by_f_cnt tie test a [] s = ground arith
remove_if-insert_by_f_cnt tie test a (x ∷ xs) s = elim (Bool-cases (precedes tie a x)) [
  | inl e ↦
      let first = insert_by_f_cnt-first tie a (remove_if test xs) (
        All-remove_if (λ y. precedes tie a y ≡ true) test xs
          (All-mono xs (λ y h. precedes_trans tie a x y e h) s.0)) in
      ground (arith, e, first)
  | inr e ↦ ground (arith, e, remove_if-insert_by_f_cnt tie test a xs s.1)
]

pub by_f_cnt-remove_if :
    (tie : ℕ → ℕ)
    → (test : Item → Bool) (e : ℕ) (is : List Item)
    → by_f_cnt tie e (remove_if test is) ≡ remove_if test (by_f_cnt tie e is)
unfolding by_f_cnt remove_if
by_f_cnt-remove_if tie test e [] = refl
by_f_cnt-remove_if tie test e (i ∷ is) = ground (
  arith,
  by_f_cnt-remove_if tie test e is,
  remove_if-insert_by_f_cnt tie test i (by_f_cnt tie e is) (IsRanked-by_f_cnt tie e is),
)

pub All-by_f_cnt {κ} :
    (tie : ℕ → ℕ)
    → (P : Item → Type κ) (e : ℕ) (is : List Item) → All (λ i. i.dev_eui ≡ e → P i) is
    → All P (by_f_cnt tie e is)
unfolding by_f_cnt
All-by_f_cnt tie P e [] h = tt
All-by_f_cnt tie P e (i ∷ is) h = elim (Bool-cases (i.dev_eui == e)) [
  | inl same ↦
      rw (same, by_f_cnt)
        (All-insert_by_f_cnt tie P i (by_f_cnt tie e is) (h.0 (ground arith))
          (All-by_f_cnt tie P e is h.1))
  | inr other ↦ rw (other, by_f_cnt) (All-by_f_cnt tie P e is h.1)
]

pub remove_if_every :
    (test : Item → Bool) (is : List Item) → All (λ i. test i ≡ true) is → remove_if test is ≡ []
unfolding remove_if
remove_if_every test [] h = refl
remove_if_every test (i ∷ is) h = ground (arith, h.0, remove_if_every test is h.1)

pub remove_if_none :
    (test : Item → Bool) (is : List Item) → All (λ i. test i ≡ false) is → remove_if test is ≡ is
unfolding remove_if
remove_if_none test [] h = refl
remove_if_none test (i ∷ is) h = ground (arith, h.0, remove_if_none test is h.1)
