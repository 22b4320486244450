-- ===== src/Execution/Quiet.antt =====
-- Steps that set headers of the response at most, and the shape of a whole answer.
use lrzwasnla.Common.{◌≡◌, refl, ◌∙◌, ap, Bool, true, false, Option, List, [], ◌∷◌, ◌++◌, String, ℤ}
use lrzwasnla.Common.Exec.{Result, ok, err, continue, ◌>>=◌}
use lrzwasnla.Errors.{Failure}
use lrzwasnla.Execution.{Call, Step, Reply, set_header, write_head, end, Body}
use lrzwasnla.Execution.Values.{Json}
use lrzwasnla.Execution.Silence.{Silent}

abbrev pub only_headers : List Reply → Bool
only_headers [] = true
only_headers (set_header name value ∷ rest) = only_headers rest
only_headers (_ ∷ rest) = false

-- Headers, one head, and one body after it.
pub record IsAnswer (replies : List Reply) : Type 0 where
  pub before : List Reply
  pub status_code : ℤ
  pub content_type : Option String
  pub body : Body
  pub before_only_headers : only_headers before ≡ true
  pub parts : replies ≡ (before ++ write_head status_code content_type ∷ []) ++ end body ∷ []

pub only_headers-set_header :
    (replies : List Reply) (name : String) (value : Json)
    → only_headers replies ≡ true
    → only_headers (replies ++ set_header name value ∷ []) ≡ true
only_headers-set_header [] name value h = refl
only_headers-set_header (set_header n v ∷ rest) name value h =
    only_headers-set_header rest name value h
only_headers-set_header (write_head n v ∷ rest) name value h = h
only_headers-set_header (end b ∷ rest) name value h = h

-- Nothing but headers was set so far.
abbrev pub Quiet : {W : Type 0} → Call W → Type 0
Quiet s = only_headers s.replies ≡ true

-- An answer was written, or something was thrown before.
abbrev pub Ends : {W : Type 0} → Result Failure (Unit {0}) × Call W → Type 0
Ends (ok _, s) = IsAnswer s.replies
Ends (err _, s) = Quiet s

-- `f` sets headers at most.
pub record KeepsQuiet {W A : Type 0} (f : Step W A) : Type 0 where
  pub at : (s : Call W) → Quiet s → Quiet (f s).1

module _ {W A : Type 0} where
  pub Silent-KeepsQuiet : {f : Step W A} → Silent f → KeepsQuiet f
  Silent-KeepsQuiet k = record { at = λ s q. ap only_headers (k.at s) ∙ q }

  Ends-continue :
      (c : Result Failure A) (g : A → Step W (Unit {0})) (s : Call W)
      → Quiet s
      → ((a : A) (t : Call W) → Quiet t → Ends (g a t))
      → Ends (continue c g s)
  Ends-continue (ok a) g s q k = k a s q
  Ends-continue (err e) g s q k = q

  pub Ends->>= :
      (f : Step W A) (g : A → Step W (Unit {0})) (s : Call W)
      → KeepsQuiet f
      → Quiet s
      → ((a : A) (t : Call W) → Quiet t → Ends (g a t))
      → Ends ((f >>= g) s)
  Ends->>= f g s kf q k = Ends-continue (f s).0 g (f s).1 (kf.at s q) k

module _ {W A B : Type 0} where
  KeepsQuiet-continue :
      (c : Result Failure A) (g : A → Step W B) (s : Call W)
      → Quiet s
      → ((a : A) → KeepsQuiet (g a))
      → Quiet (continue c g s).1
  KeepsQuiet-continue (ok a) g s q k = (k a).at s q
  KeepsQuiet-continue (err e) g s q k = q

  pub KeepsQuiet->>= :
      (f : Step W A) (g : A → Step W B)
      → KeepsQuiet f
      → ((a : A) → KeepsQuiet (g a))
      → KeepsQuiet (f >>= g)
  KeepsQuiet->>= f g kf kg = record {
    at = λ s q. KeepsQuiet-continue (f s).0 g (f s).1 (kf.at s q) kg;
  }
