-- ===== src/Review/Pairs.antt =====
-- `activateCycle` makes one review for each pair of users that is due, and no other.
use teamos_backend.Prelude.{
  ◌≡◌, inl, inr, refl, sym, ◌∙◌, Bool, true, false, Option, none, some, List, [], ◌∷◌, ◌++◌, Key,
  arith, ◌==◌, ◌&&◌, ◌||◌, Bool-cases, truthy, any_by,
}
use teamos_backend.Directory.{UserProfile}
use teamos_backend.Review.Activation.{
  Assignment, assignments_of, reviews_to_create, same_pair, is_seen, dedupe,
}

-- No two assignments of one pair.
abbrev pub NoPairTwice : List Assignment → Type 0
NoPairTwice [] = Unit
NoPairTwice (a ∷ rest) = (is_seen rest a ≡ false) × NoPairTwice rest

same_pair_trans : (a b c : Assignment) → same_pair a b ≡ true → same_pair a c ≡ same_pair b c
same_pair_trans a b c h = ground arith

is_seen-same :
    (a b : Assignment) (seen : List Assignment)
    → same_pair a b ≡ true
    → is_seen seen a ≡ is_seen seen b
is_seen-same a b [] h = refl
is_seen-same a b (s ∷ seen) h = ground (arith, same_pair_trans a b s h, is_seen-same a b seen h)

dedupe-not_seen :
    (seen rest : List Assignment) (b : Assignment)
    → is_seen seen b ≡ true
    → is_seen (dedupe seen rest) b ≡ false
unfolding dedupe
dedupe-not_seen seen [] b h = refl
dedupe-not_seen seen (a ∷ rest) b h = elim (Bool-cases (is_seen seen a)) [
  | inl e ↦ rw e (dedupe-not_seen seen rest b h)
  | inr e ↦ elim (Bool-cases (same_pair b a)) [
    | inl s ↦ let bad : true ≡ false = sym h ∙ is_seen-same b a seen s ∙ e in cc
    | inr s ↦ rw (e, s) (dedupe-not_seen (a ∷ seen) rest b (rw (s, h)))
  ]
]

same_pair_refl : (a : Assignment) → same_pair a a ≡ true
same_pair_refl a = ground arith

pub dedupe-NoPairTwice : (seen rest : List Assignment) → NoPairTwice (dedupe seen rest)
unfolding dedupe
dedupe-NoPairTwice seen [] = tt
dedupe-NoPairTwice seen (a ∷ rest) = elim (Bool-cases (is_seen seen a)) [
  | inl e ↦ rw e (dedupe-NoPairTwice seen rest)
  | inr e ↦ rw e (
    dedupe-not_seen (a ∷ seen) rest a (rw (same_pair_refl a)),
    dedupe-NoPairTwice (a ∷ seen) rest,
  )
]

dedupe-same :
    (seen rest : List Assignment) (b : Assignment)
    → (is_seen seen b || is_seen (dedupe seen rest) b) ≡ (is_seen seen b || is_seen rest b)
unfolding dedupe
dedupe-same seen [] b = refl
dedupe-same seen (a ∷ rest) b = elim (Bool-cases (is_seen seen a)) [
  | inl e ↦ rw e (
      let ih = dedupe-same seen rest b in
      elim (Bool-cases (same_pair b a)) [
        | inl s ↦ let old : is_seen seen b ≡ true = is_seen-same b a seen s ∙ e in rw old
        | inr s ↦ rw s ih
      ])
  | inr e ↦ rw e (let ih = dedupe-same (a ∷ seen) rest b in ground arith)
]

pub is_seen-dedupe :
    (rest : List Assignment) (b : Assignment) → is_seen (dedupe [] rest) b ≡ is_seen rest b
is_seen-dedupe rest b = dedupe-same [] rest b

-- A user reviews themselves and, in both directions, their supervisor.
abbrev pub is_supervised_by : Option Key → Key → Bool
is_supervised_by none k = false
is_supervised_by (some s) k = s == k

abbrev pub is_due : Key → Key → UserProfile → Bool
is_due reviewee reviewer p =
    (p.user_id == reviewee && p.user_id == reviewer)
    || ((p.user_id == reviewee && is_supervised_by (truthy p.supervisor_id) reviewer)
        || (p.user_id == reviewer && is_supervised_by (truthy p.supervisor_id) reviewee))

is_seen-append :
    (xs ys : List Assignment) (b : Assignment)
    → is_seen (xs ++ ys) b ≡ (is_seen xs b || is_seen ys b)
is_seen-append [] ys b = refl
is_seen-append (x ∷ xs) ys b = ground (arith, is_seen-append xs ys b)

is_seen-assignments_of :
    (p : UserProfile) (b : Assignment)
    → is_seen (assignments_of p.user_id (truthy p.supervisor_id)) b
      ≡ is_due b.reviewee_id b.reviewer_id p
is_seen-assignments_of p b = ground arith

pub is_seen-reviews_to_create :
    (ps : List UserProfile) (b : Assignment)
    → is_seen (reviews_to_create ps) b ≡ any_by (is_due b.reviewee_id b.reviewer_id) ps
unfolding reviews_to_create
is_seen-reviews_to_create [] b = refl
is_seen-reviews_to_create (p ∷ ps) b =
    is_seen-append (assignments_of p.user_id (truthy p.supervisor_id)) (reviews_to_create ps) b
    ∙ rw (is_seen-assignments_of p b, is_seen-reviews_to_create ps b)
