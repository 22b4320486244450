-- ===== src/Scheduling/Loop.antt =====
-- utils/findAsyncSequential.ts
use lrzwasnla.Common.{
  Bool, true, false, Option, none, some, List, [], ◌∷◌, ◌++◌, ◌≡◌, refl, ap, ◌↔◌, inl, inr,
  Bool-cases, if◌then◌else◌, arith,
}
use lrzwasnla.Common.Exec.{ok, Exec, pure, ◌>>=◌, >>=-eq-ok}

module _ {E S A : Type 0} where
  unfoldable pub find_async_sequential : List A → (A → Exec E S Bool) → Exec E S (Option A)
  find_async_sequential [] predicate = pure none
  find_async_sequential (a ∷ rest) predicate =
      predicate a >>= λ found. if found then pure (some a) else find_async_sequential rest predicate

  -- One after the other, the predicate is false of each, from a state to a state.
  pub data Refused (predicate : A → Exec E S Bool) : List A → S → S → Type 0 where
    none_left : {s : S} → Refused predicate [] s s
    refused :
        {a : A} {rest : List A} {s t u : S}
        → predicate a s ≡ (ok false, t)
        → Refused predicate rest t u
        → Refused predicate (a ∷ rest) s u

  module _ (predicate : A → Exec E S Bool) where
    -- What was found, and in which state.
    abbrev pub IsFirst : List A → A → S → S → Type 0
    IsFirst values a s t =
        (before : List A) × (after : List A) × (u : S) × (values ≡ before ++ a ∷ after)
        × Refused predicate before s u
        × (predicate a u ≡ (ok true, t))

    find_async_sequential-IsFirst :
        (values : List A) (a : A) (s t : S)
        → find_async_sequential values predicate s ≡ (ok (some a), t)
        → IsFirst values a s t
    unfolding find_async_sequential
    find_async_sequential-IsFirst [] a s t h = absurd (ground arith)
    find_async_sequential-IsFirst (x ∷ rest) a s t h =
        let (found, u, e, e1) =
          >>=-eq-ok (predicate x)
            (λ found. if found then pure (some x) else find_async_sequential rest predicate) s t
            (some a) h in
        elim (Bool-cases found) [
          | inl here ↦
              ([], rest, s, ground (arith, e1, here), none_left, ground (arith, e, e1, here))
          | inr other ↦
              let (before, after, v, parts, refusals, last) =
                find_async_sequential-IsFirst rest a u t (ground (arith, e1, other)) in
              (
                x ∷ before,
                after,
                v,
                ap (λ l. x ∷ l) parts,
                refused (ground (arith, e, other)) refusals,
                last,
              )
        ]

    IsFirst-find_async_sequential :
        (before after : List A) (a : A) (s u t : S)
        → Refused predicate before s u
        → predicate a u ≡ (ok true, t)
        → find_async_sequential (before ++ a ∷ after) predicate s ≡ (ok (some a), t)
    unfolding find_async_sequential
    IsFirst-find_async_sequential [] after a s u t none_left h = rw (h, find_async_sequential) refl
    IsFirst-find_async_sequential (x ∷ before) after a s u t (refused e rest) h =
        rw (e, find_async_sequential) (IsFirst-find_async_sequential before after a _ u t rest h)

    -- The loop returns a value, in a state, exactly if the predicate was false of each value before
    -- it, one after the other, and then true of it, with that state behind it.
    pub find_async_sequential_iff :
        (values : List A) (a : A) (s t : S)
        → (find_async_sequential values predicate s ≡ (ok (some a), t)) ↔ IsFirst values a s t
    find_async_sequential_iff values a s t = (
      find_async_sequential-IsFirst values a s t,
      λ found.
          (let (before, after, u, parts, refusals, last) = found in
            rw parts (IsFirst-find_async_sequential before after a s u t refusals last)),
    )
