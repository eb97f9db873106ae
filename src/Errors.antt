-- ===== src/Errors.antt =====
-- Go errors: the text, the sentinels that `errors.Is` finds through the wrapping, and the interval of
-- a retry error of the provisioning framework (github.com/siderolabs/omni/client).
use omni_infra_provider_prox.Base.{
  ℕ, String, ◌^^◌, ◌≡◌, Bool, true, false, ◌||◌, Option, none, some, List, [], ◌∷◌, ◌++◌, refl, ◌⊎◌,
  inl, inr,
}

-- `errNotFound`, `errAlreadyExists`, `errConflict`, `errInfeasible` of internal/pkg/provider/ha and
-- `errTaskFailed` of internal/pkg/provider.
pub data Sentinel : Type 0 where
  not_found already_exists conflict infeasible task_failed : Sentinel

abbrev pub sentinel_text : Sentinel → String
sentinel_text not_found = "ha: not found"
sentinel_text already_exists = "ha: already exists"
sentinel_text conflict = "ha: digest conflict"
sentinel_text infeasible = "ha: rule infeasible"
sentinel_text task_failed = "proxmox task failed"

abbrev pub same_sentinel : Sentinel → Sentinel → Bool
same_sentinel not_found not_found = true
same_sentinel already_exists already_exists = true
same_sentinel conflict conflict = true
same_sentinel infeasible infeasible = true
same_sentinel task_failed task_failed = true
same_sentinel _ _ = false

pub record Error : Type 0 where
  pub text : String
  pub causes : List Sentinel
  pub retry_after : Option ℕ

abbrev holds : List Sentinel → Sentinel → Bool
holds [] s = false
holds (c ∷ cs) s = same_sentinel c s || holds cs s

-- errors.Is
abbrev pub errors_is : Error → Sentinel → Bool
errors_is e s = holds e.causes s

-- errors.New, fmt.Errorf with no `%w`
abbrev pub error_new : String → Error
error_new t = record { text = t; causes = []; retry_after = none }

abbrev pub sentinel_error : Sentinel → Error
sentinel_error s = record { text = sentinel_text s; causes = s ∷ []; retry_after = none }

-- fmt.Errorf with one `%w` between two texts
abbrev pub wrap : String → Error → String → Error
wrap before e after = record e { text = before ^^ (e.text ^^ after) }

-- fmt.Errorf("%w: %w", s, e)
abbrev pub tagged : Sentinel → Error → Error
tagged s e = record e { text = sentinel_text s ^^ (": " ^^ e.text); causes = s ∷ e.causes }

-- fmt.Errorf with two `%w` and the texts between and after them
abbrev pub wrap_two : Error → String → Error → String → Error
wrap_two e between f after = record e {
  text = e.text ^^ (between ^^ (f.text ^^ after));
  causes = e.causes ++ f.causes;
}

-- provision.NewRetryInterval; the interval is in seconds
abbrev pub retry_interval : ℕ → Error
retry_interval seconds = record { text = ""; causes = []; retry_after = some seconds }

-- provision.NewRetryError
abbrev pub retry_error : Error → ℕ → Error
retry_error e seconds = record e { retry_after = some seconds }

pub data Result (A : Type 0) : Type 0 where
  ok : A → Result A
  err : Error → Result A

-- To split on the result of a call and keep the equation.
pub Result-cases :
    {A : Type 0} (r : Result A) → ((a : A) × (r ≡ ok a)) ⊎ ((e : Error) × (r ≡ err e))
Result-cases (ok a) = inl (a, refl)
Result-cases (err e) = inr (e, refl)
