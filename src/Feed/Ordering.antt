-- ===== src/Feed/Ordering.antt =====
-- The order of the feed, and the rows after a cursor.
use devsignal.Prelude.{
  ℕ, zero, suc, ◌≤◌, ◌≡◌, ◌≢◌, refl, ap, sym, ◌∙◌, Bool, true, false, some, List, [], ◌∷◌, arith,
  Bool-cases, inl, inr, All, All-map, All-filter, All-take, length, take, filter, if◌then◌else◌,
}
use mathlib.Core.Path.{subst}
use mathlib.Core.Option.{some-injective}
use devsignal.Feed.Mapping.{Entry}
use devsignal.Feed.List.{Key, key_of, key_lt, insert_entry, order_entries, last_of}

pub key_lt_trans : (a b c : Key) → key_lt a b ≡ true → key_lt b c ≡ true → key_lt a c ≡ true
unfolding key_lt
key_lt_trans a b c h k = ground arith

key_lt_asym : (a b : Key) → key_lt a b ≡ true → key_lt b a ≡ false
unfolding key_lt
key_lt_asym a b h = ground arith

key_lt_irrefl : (a : Key) → key_lt a a ≡ false
unfolding key_lt
key_lt_irrefl a = ground arith

-- `x` comes before `y` in the feed.
abbrev pub Before : Entry → Entry → Type 0
Before x y = key_lt (key_of y) (key_of x) ≡ true

key_total : (x y : Entry) → x.id ≢ y.id → key_lt (key_of y) (key_of x) ≡ false → Before y x
unfolding key_lt
key_total x y n h = ground arith

-- Each row comes before all that follow.
abbrev pub IsOrdered : List Entry → Type 0
IsOrdered [] = Unit
IsOrdered (x ∷ xs) = All (Before x) xs × IsOrdered xs

-- `id` is the primary key.
abbrev pub UniqueIds : List Entry → Type 0
UniqueIds [] = Unit
UniqueIds (x ∷ xs) = All (λ y. x.id ≢ y.id) xs × UniqueIds xs

All-insert_entry {κ} :
    (P : Entry → Type κ) (x : Entry) (ys : List Entry) → P x → All P ys → All P (insert_entry x ys)
unfolding insert_entry
All-insert_entry P x [] h k = (h, tt)
All-insert_entry P x (y ∷ ys) h k = elim (Bool-cases (key_lt (key_of y) (key_of x))) [
  | inl e ↦ rw e (h, k)
  | inr e ↦ rw e (k.0, All-insert_entry P x ys h k.1)
]

pub All-order_entries {κ} :
    (P : Entry → Type κ) (xs : List Entry) → All P xs → All P (order_entries xs)
unfolding order_entries
All-order_entries P [] h = tt
All-order_entries P (x ∷ xs) h =
    All-insert_entry P x (order_entries xs) h.0 (All-order_entries P xs h.1)

-- What comes before the first row comes before all.
precedes :
    (x y : Entry) (ys : List Entry) → Before x y → All (Before y) ys → All (Before x) (y ∷ ys)
precedes x y ys e h = (
  e,
  All-map (Before y) (Before x) ys (λ z k. key_lt_trans (key_of z) (key_of y) (key_of x) k e) h,
)

insert_entry-IsOrdered :
    (x : Entry) (ys : List Entry)
    → All (λ y. x.id ≢ y.id) ys
    → IsOrdered ys
    → IsOrdered (insert_entry x ys)
unfolding insert_entry
insert_entry-IsOrdered x [] n h = (tt, tt)
insert_entry-IsOrdered x (y ∷ ys) n h = elim (Bool-cases (key_lt (key_of y) (key_of x))) [
  | inl e ↦ rw e (precedes x y ys e h.0, h)
  | inr e ↦ rw e (
    All-insert_entry (Before y) x ys (key_total x y n.0 e) h.0,
    insert_entry-IsOrdered x ys n.1 h.1,
  )
]

pub order_entries-IsOrdered : (xs : List Entry) → UniqueIds xs → IsOrdered (order_entries xs)
unfolding order_entries
order_entries-IsOrdered [] u = tt
order_entries-IsOrdered (x ∷ xs) u =
    insert_entry-IsOrdered x (order_entries xs) (All-order_entries (λ y. x.id ≢ y.id) xs u.0)
      (order_entries-IsOrdered xs u.1)

pub All-filter_kept {κ} :
    (P : Entry → Type κ) (p : Entry → Bool) (xs : List Entry) → All P xs → All P (filter p xs)
All-filter_kept P p xs h = All-filter P p xs (All-map P (λ z. p z ≡ true → P z) xs (λ z b t. b) h)

pub filter-UniqueIds : (p : Entry → Bool) (xs : List Entry) → UniqueIds xs → UniqueIds (filter p xs)
filter-UniqueIds p [] u = tt
filter-UniqueIds p (x ∷ xs) u = elim (Bool-cases (p x)) [
  | inl e ↦ rw e (All-filter_kept (λ y. x.id ≢ y.id) p xs u.0, filter-UniqueIds p xs u.1)
  | inr e ↦ rw e (filter-UniqueIds p xs u.1)
]

insert-front : (x : Entry) (ys : List Entry) → All (Before x) ys → insert_entry x ys ≡ x ∷ ys
unfolding insert_entry
insert-front x [] h = refl
insert-front x (y ∷ ys) h = rw h.0 refl

pushed :
    (x y : Entry) (ys : List Entry) (b : Bool)
    → key_lt (key_of y) (key_of x) ≡ false
    → (y ∷ (if b then insert_entry x ys else ys)) ≡ (if b then insert_entry x (y ∷ ys) else y ∷ ys)
unfolding insert_entry
pushed x y ys true e = rw e refl
pushed x y ys false e = refl

insert-filter :
    (p : Entry → Bool) (x : Entry) (ys : List Entry)
    → All (λ y. x.id ≢ y.id) ys
    → IsOrdered ys
    → filter p (insert_entry x ys) ≡ (if p x then insert_entry x (filter p ys) else filter p ys)
unfolding insert_entry
insert-filter p x [] n h = refl
insert-filter p x (y ∷ ys) n h = elim (Bool-cases (key_lt (key_of y) (key_of x))) [
  | inl e ↦
      let all : All (Before x) (filter p (y ∷ ys)) =
        All-filter_kept (Before x) p (y ∷ ys) (precedes x y ys e h.0) in
      rw e (elim (Bool-cases (p x)) [
        | inl t ↦ rw t (sym (insert-front x (filter p (y ∷ ys)) all))
        | inr f ↦ rw f refl
      ])
  | inr e ↦ rw e (elim (Bool-cases (p y)) [
    | inl t ↦ rw (t, insert-filter p x ys n.1 h.1) (pushed x y (filter p ys) (p x) e)
    | inr f ↦ rw f (insert-filter p x ys n.1 h.1)
  ])
]

-- WHERE and ORDER BY commute.
pub order-filter :
    (p : Entry → Bool) (xs : List Entry)
    → UniqueIds xs
    → order_entries (filter p xs) ≡ filter p (order_entries xs)
unfolding order_entries
order-filter p [] u = refl
order-filter p (x ∷ xs) u =
    let at_head =
      insert-filter p x (order_entries xs) (All-order_entries (λ y. x.id ≢ y.id) xs u.0)
        (order_entries-IsOrdered xs u.1) in
    elim (Bool-cases (p x)) [
      | inl e ↦
          rw (e, order-filter p xs u.1)
            (sym (
              at_head
              ∙ ap
                  (λ b.
                    if b
                    then insert_entry x (filter p (order_entries xs))
                    else filter p (order_entries xs))
                  e))
      | inr e ↦
          rw (e, order-filter p xs u.1)
            (sym (
              at_head
              ∙ ap
                  (λ b.
                    if b
                    then insert_entry x (filter p (order_entries xs))
                    else filter p (order_entries xs))
                  e))
    ]

pub last-All {κ} :
    (P : Entry → Type κ) (xs : List Entry) (y : Entry) → All P xs → last_of xs ≡ some y → P y
last-All P [] y h e = absurd cc
last-All P (x ∷ []) y h e = subst P (some-injective x y e) h.0
last-All P (x ∷ z ∷ zs) y h e = last-All P (z ∷ zs) y h.1 e

abbrev pub drop_first {ℓ} : {A : Type ℓ} → ℕ → List A → List A
drop_first zero xs = xs
drop_first (suc n) [] = []
drop_first (suc n) (x ∷ xs) = drop_first n xs

pub filter-All {ℓ} :
    {A : Type ℓ} (p : A → Bool) (xs : List A) → All (λ x. p x ≡ true) xs → filter p xs ≡ xs
filter-All p [] h = refl
filter-All p (x ∷ xs) h = rw (h.0, filter-All p xs h.1) refl

-- The rows after the last of the first n + 1 rows are those that are left.
pub after-last :
    (n : ℕ) (xs : List Entry)
    → IsOrdered xs
    → suc n ≤ length xs
    → (y : Entry) × (last_of (take (suc n) xs) ≡ some y)
      × (filter (λ o. key_lt (key_of o) (key_of y)) xs ≡ drop_first (suc n) xs)
after-last n [] h l = absurd (omega arith)
after-last zero (x ∷ xs) h l =
    (x, refl, rw (key_lt_irrefl (key_of x)) (filter-All (λ o. key_lt (key_of o) (key_of x)) xs h.0))
after-last (suc n) (x ∷ []) h l = absurd (omega arith)
after-last (suc n) (x ∷ z ∷ zs) h l =
    let (y, last, left) = after-last n (z ∷ zs) h.1 (omega (arith, l)) in
    let x_first : Before x y =
      last-All (Before x) (take (suc n) (z ∷ zs)) y (All-take (Before x) (suc n) (z ∷ zs) h.0)
        last in
    (y, last, rw (key_lt_asym (key_of y) (key_of x) x_first) left)
