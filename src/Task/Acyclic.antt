-- ===== src/Task/Acyclic.antt =====
-- Relinking one task keeps the dependencies free of cycles.
use teamos_backend.Prelude.{
  ◌≡◌, ◌≢◌, ◌⊎◌, inl, inr, sym, ◌∙◌, subst, some, List, Key, arith, ◌==◌, ==_iff, Bool-cases,
}
use teamos_backend.Task.Model.{Task}
use teamos_backend.Task.Dependencies.{parent_of}
use teamos_backend.Task.Reaching.{Reaches, here, next}

-- No task depends on itself, in any number of steps.
abbrev pub IsAcyclic : List Task → Type 0
IsAcyclic tasks = (a b : Key) → parent_of tasks a ≡ some b → ¬ Reaches tasks b a

pub Reaches-trans :
    (tasks : List Task) {a b c : Key} → Reaches tasks a b → Reaches tasks b c → Reaches tasks a c
Reaches-trans tasks here s = s
Reaches-trans tasks (next e r) s = next e (Reaches-trans tasks r s)

-- Two versions of the tasks that differ only in what `k` depends on.
module _ (old new : List Task) (k : Key)
    (same : (a : Key) → a ≢ k → parent_of new a ≡ parent_of old a) where
  -- A chain that does not pass `k` is the same in both.
  avoids : {a b : Key} → Reaches new a b → ¬ Reaches old a k → Reaches old a b
  avoids here n = here
  avoids (next {a = x} e r) n =
      let e' : parent_of old x ≡ some _ =
        sym (same x (λ q. n (subst (Reaches old x) q here))) ∙ e in
      next e' (avoids r (λ q. n (next e' q)))

  -- A chain of the new version is one of the old, or passes `k` and goes on from its new link.
  passes_link :
      {a b : Key}
      → Reaches new a b
      → Reaches old a b
        ⊎ ((d : Key) × (parent_of new k ≡ some d) × Reaches new d b × Reaches old a k)
  passes_link here = inl here
  passes_link (next {a = x} {b = y} e r) = elim (Bool-cases (x == k)) [
    | inl at_k ↦
        let q : x ≡ k = (==_iff x k).0 at_k in inr (y, rw (← q) e, r, subst (Reaches old x) q here)
    | inr off ↦
        let e' : parent_of old x ≡ some y = sym (same x (λ q. ground arith)) ∙ e in
        elim (passes_link r) [
          | inl s ↦ inl (next e' s)
          | inr (d, l, s, t) ↦ inr (d, l, s, next e' t)
        ]
  ]

  pub relink-IsAcyclic :
      IsAcyclic old → ((d : Key) → parent_of new k ≡ some d → ¬ Reaches old d k) → IsAcyclic new
  relink-IsAcyclic acyclic free a b e r = elim (Bool-cases (a == k)) [
    | inl at_k ↦
        let q : a ≡ k = (==_iff a k).0 at_k in
        let link : parent_of new k ≡ some b = rw (← q) e in
        free b link (subst (Reaches old b) q (avoids r (free b link)))
    | inr off ↦
        let e' : parent_of old a ≡ some b = sym (same a (λ q. ground arith)) ∙ e in
        elim (passes_link r) [
          | inl s ↦ acyclic a b e' s
          | inr (d, l, s, t) ↦ free d l (Reaches-trans old (avoids s (free d l)) (next e' t))
        ]
  ]
