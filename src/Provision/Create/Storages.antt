-- ===== src/Provision/Create/Storages.antt =====
-- `pickStorage`: which storage is taken.
use omni_infra_provider_prox.Base.{
  String, ◌≡◌, refl, Bool, true, false, List, [], ◌∷◌, ◌++◌, All, if◌then◌else◌, arith, ap,
}
use omni_infra_provider_prox.Errors.{Result, ok, err}
use omni_infra_provider_prox.Api.{Storage}
use omni_infra_provider_prox.Provision.Create.{Selector, first_match}

-- The first storage of the list that the selector matches, with every one before it refused.
pub record IsFirst (matches : Selector) (selector on : String) (storages : List Storage)
    (name : String) : Type 0 where
  pub before : List Storage
  pub taken : Storage
  pub after : List Storage
  pub in_order : storages ≡ before ++ taken ∷ after
  pub refused : All (λ s. matches selector on s ≡ ok false) before
  pub matched : matches selector on taken ≡ ok true
  pub is_named : taken.name ≡ name

module _ (matches : Selector) (selector on : String) where
  later-IsFirst :
      (s : Storage) (ss : List Storage) (name : String)
      → matches selector on s ≡ ok false
      → IsFirst matches selector on ss name
      → IsFirst matches selector on (s ∷ ss) name
  later-IsFirst s ss name refusal h = record {
    before = s ∷ h.before;
    taken = h.taken;
    after = h.after;
    in_order = ap (λ l. s ∷ l) h.in_order;
    refused = (refusal, h.refused);
    matched = h.matched;
    is_named = h.is_named;
  }

  step :
      (s : Storage) (ss : List Storage) (name : String) (r : Result Bool) (later : Result String)
      → matches selector on s ≡ r
      → (later ≡ ok name → IsFirst matches selector on ss name)
      → ◌≡◌ {A = Result String}
          (elim r [ err e ↦ err e | ok matched ↦ if matched then ok s.name else later ])
          (ok name)
      → IsFirst matches selector on (s ∷ ss) name
  step s ss name (err e) later is rest h = absurd (ground arith)
  step s ss name (ok true) later is rest h = record {
    before = [];
    taken = s;
    after = ss;
    in_order = refl;
    refused = tt;
    matched = is;
    is_named = ground (arith, h);
  }
  step s ss name (ok false) later is rest h = later-IsFirst s ss name is (rest h)

  -- A storage that `pickStorage` picks is the first of the list that the selector matches.
  pub first_match-IsFirst :
      (ss : List Storage) (name : String)
      → first_match matches selector on ss ≡ ok name
      → IsFirst matches selector on ss name
  unfolding first_match
  first_match-IsFirst [] name h = absurd (ground arith)
  first_match-IsFirst (s ∷ ss) name h =
      step s ss name (matches selector on s) (first_match matches selector on ss) refl
        (first_match-IsFirst ss name) h
