-- ===== src/Dsa/Ends.antt =====
-- The ends of a list with something before or behind it, and lists that share no node.
use workhorse_rt.Common.{
  ℕ, ◌≡◌, ap, refl, true, false, Option, none, some, List, [], ◌∷◌, ◌++◌, arith, ◌==◌, ◌||◌, has,
  Distinct, Bool-cases, inl, inr,
}

pub append_nil : (xs : List ℕ) → xs ++ [] ≡ xs
append_nil [] = refl
append_nil (x ∷ xs) = ap (λ (l : List ℕ). x ∷ l) (append_nil xs)

-- The first node of a list that `next` stands behind.
abbrev pub first_or : List ℕ → Option ℕ → Option ℕ
first_or [] next = next
first_or (x ∷ xs) next = some x

-- The last node of a list that `prev` stands before.
abbrev pub last_or : Option ℕ → List ℕ → Option ℕ
last_or prev [] = prev
last_or prev (x ∷ xs) = last_or (some x) xs

pub last_or-append :
    (prev : Option ℕ) (xs ys : List ℕ) → last_or prev (xs ++ ys) ≡ last_or (last_or prev xs) ys
last_or-append prev [] ys = refl
last_or-append prev (x ∷ xs) ys = last_or-append (some x) xs ys

pub first_or-append :
    (next : Option ℕ) (xs ys : List ℕ) → first_or (xs ++ ys) next ≡ first_or xs (first_or ys next)
first_or-append next [] ys = refl
first_or-append next (x ∷ xs) ys = refl

pub has-append : (j : ℕ) (xs ys : List ℕ) → has j (xs ++ ys) ≡ (has j xs || has j ys)
has-append j [] ys = refl
has-append j (x ∷ xs) ys = let more = has-append j xs ys in ground (arith, more)

abbrev pub Apart : List ℕ → List ℕ → Type 0
Apart xs ys = (j : ℕ) → has j xs ≡ true → has j ys ≡ false

pub Distinct-append :
    (xs ys : List ℕ) → Distinct xs → Distinct ys → Apart xs ys → Distinct (xs ++ ys)
Distinct-append [] ys d e a = e
Distinct-append (x ∷ xs) ys d e a = (
  let split = has-append x xs ys in
      let apart = a x (ground arith) in ground (arith, split, apart, d.0),
  Distinct-append xs ys d.1 e (λ j h. a j (ground (arith, h))),
)

pub record Parts (xs ys : List ℕ) : Type 0 where
  pub left : Distinct xs
  pub right : Distinct ys
  pub apart : Apart xs ys

pub append-Parts : (xs ys : List ℕ) → Distinct (xs ++ ys) → Parts xs ys
append-Parts [] ys d = record { left = tt; right = d; apart = λ j h. absurd (ground (arith, h)) }
append-Parts (x ∷ xs) ys d =
    let more = append-Parts xs ys d.1 in
    let split = has-append x xs ys in
    record {
      left = (ground (arith, split, d.0), more.left);
      right = more.right;
      apart = λ j h. elim (Bool-cases (j == x)) [
        | inl e ↦ let eq : j ≡ x = ground (arith, e) in rw eq (ground (arith, split, d.0))
        | inr e ↦ more.apart j (ground (arith, h, e))
      ];
    }

pub Apart-sym : (xs ys : List ℕ) → Apart xs ys → Apart ys xs
Apart-sym xs ys a j h = elim (Bool-cases (has j xs)) [
  | inl e ↦ let no_way = a j e in absurd (ground (arith, no_way, h))
  | inr e ↦ e
]

-- A new node between two parts.
pub record Room (xs : List ℕ) (x : ℕ) (ys : List ℕ) : Type 0 where
  pub left : Distinct xs
  pub right : Distinct ys
  pub apart : Apart xs ys
  pub out_left : has x xs ≡ false
  pub out_right : has x ys ≡ false

pub append-Room :
    (xs : List ℕ) (x : ℕ) (ys : List ℕ)
    → Distinct (xs ++ ys)
    → has x (xs ++ ys) ≡ false
    → Room xs x ys
append-Room xs x ys d out =
    let parts = append-Parts xs ys d in
    let split = has-append x xs ys in
    record {
      left = parts.left;
      right = parts.right;
      apart = parts.apart;
      out_left = ground (arith, out, split);
      out_right = ground (arith, out, split);
    }

-- A node between two parts, which is taken out.
pub between-Room : (xs : List ℕ) (x : ℕ) (ys : List ℕ) → Distinct (xs ++ x ∷ ys) → Room xs x ys
between-Room xs x ys d =
    let parts = append-Parts xs (x ∷ ys) d in
    let apart = Apart-sym xs (x ∷ ys) parts.apart in
    record {
      left = parts.left;
      right = parts.right.1;
      apart = λ j e. let a = parts.apart j e in ground (arith, a);
      out_left = apart x (ground arith);
      out_right = parts.right.0;
    }

pub Room-Distinct : (xs : List ℕ) (x : ℕ) (ys : List ℕ) → Room xs x ys → Distinct (xs ++ x ∷ ys)
Room-Distinct xs x ys r =
    let back = Apart-sym xs ys r.apart in
    Distinct-append xs (x ∷ ys) r.left (r.out_right, r.right)
      (Apart-sym (x ∷ ys) xs (λ j e. elim (Bool-cases (j == x)) [
        | inl same ↦ let eq : j ≡ x = ground (arith, same) in rw eq r.out_left
        | inr other ↦ back j (ground (arith, e, other))
      ]))

pub apart_eq : (i j : ℕ) (xs : List ℕ) → has i xs ≡ false → has j xs ≡ true → (i == j) ≡ false
apart_eq i j [] a b = cc
apart_eq i j (x ∷ xs) a b =
    let more = λ (p : has i xs ≡ false) (q : has j xs ≡ true). apart_eq i j xs p q in
    elim (Bool-cases (j == x)) [
      | inl e ↦ ground (arith, a, e)
      | inr e ↦ more (ground (arith, a)) (ground (arith, b, e))
    ]

-- Where a list ends.
pub data Last (xs : List ℕ) : Option ℕ → Type 0 where
  nowhere : xs ≡ [] → Last xs none
  at : {l : ℕ} → has l xs ≡ true → Last xs (some l)

pub last_or-Last : (xs : List ℕ) → Last xs (last_or none xs)
last_or-Last [] = Last.nowhere refl
last_or-Last (x ∷ xs) = inside x xs
  where
    behind : (x l y : ℕ) (ys : List ℕ) → has l (y ∷ ys) ≡ true → has l (x ∷ y ∷ ys) ≡ true
    behind x l y ys e = ground (arith, e)

    longer : (x y : ℕ) (ys : List ℕ) {v : Option ℕ} → Last (y ∷ ys) v → Last (x ∷ y ∷ ys) v
    longer x y ys (Last.nowhere e) = absurd (ground (arith, e))
    longer x y ys (Last.at {l} e) = Last.at (behind x l y ys e)

    inside : (x : ℕ) (xs : List ℕ) → Last (x ∷ xs) (last_or (some x) xs)
    inside x [] = Last.at (ground arith)
    inside x (y ∷ ys) = longer x y ys (inside y ys)

pub end-Room : (xs : List ℕ) (x : ℕ) → Distinct xs → has x xs ≡ false → Room xs x []
end-Room xs x d out = record {
  left = d;
  right = tt;
  apart = λ j h. refl;
  out_left = out;
  out_right = refl;
}
