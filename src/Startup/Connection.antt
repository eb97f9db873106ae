-- ===== src/Startup/Connection.antt =====
-- The options of the connection to Proxmox.
use omni_infra_provider_prox.Base.{
  ◌∙◌, ℕ, ◌+◌, ◌≤◌, String, ◌≡◌, ◌≢◌, refl, Bool, true, false, not, ◌&&◌, ◌⊎◌, inl, inr, List, [],
  ◌∷◌, ◌++◌, ◌=ₜ◌, if◌then◌else◌, All, ap, arith, eq_iff, Bool-cases,
}
use omni_infra_provider_prox.Startup.{
  ProxmoxConfig, ConnectionOption, with_credentials, with_api_token, with_http_client,
  login_options, proxmox_options,
}

-- The option says what the settings say, and logs in with no empty name or secret; the token is for settings
-- without a user and a password.
abbrev pub FitsSettings : ProxmoxConfig → ConnectionOption → Type 0
FitsSettings c (with_credentials username password realm) =
    ((username ≡ c.username) × (username ≢ ""))
    × ((password ≡ c.password) × (password ≢ ""))
    × (realm ≡ c.realm)
FitsSettings c (with_api_token id secret) =
    ((id ≡ c.token_id) × (id ≢ ""))
    × ((secret ≡ c.token_secret) × (secret ≢ ""))
    × ((c.username ≡ "") ⊎ (c.password ≡ ""))
FitsSettings c (with_http_client timeout skip) = (c.insecure_skip_verify ≡ true) × (skip ≡ true)

-- How many of the options log in, and how many replace the HTTP client.
abbrev pub logins : List ConnectionOption → ℕ
logins [] = 0
logins (with_credentials _ _ _ ∷ os) = logins os + 1
logins (with_api_token _ _ ∷ os) = logins os + 1
logins (with_http_client _ _ ∷ os) = logins os

abbrev pub CanLogIn : ProxmoxConfig → Type 0
CanLogIn c = ((c.username ≢ "") × (c.password ≢ "")) ⊎ ((c.token_id ≢ "") × (c.token_secret ≢ ""))

not_empty : (s : String) → (s =ₜ "") ≡ false → s ≢ ""
not_empty s h = λ e. ground (arith, eq_iff s "")

empty : (s : String) → (s =ₜ "") ≡ true → s ≡ ""
empty s h = ground (arith, eq_iff s "")

not_set : {x : String} → x ≢ "" → (x =ₜ "") ≡ false
not_set {x} n = elim (Bool-cases (x =ₜ "")) [ inl e ↦ absurd (n (empty x e)) | inr e ↦ e ]

abbrev pub LoginsFit : ProxmoxConfig → List ConnectionOption → Type 0
LoginsFit c os = All (FitsSettings c) os × ((logins os ≤ 1) × (CanLogIn c → logins os ≡ 1))

-- Without a user or a password the token is looked at.
token_LoginsFit :
    (c : ProxmoxConfig)
    → ((c.username ≡ "") ⊎ (c.password ≡ ""))
    → LoginsFit c (
        if not (c.token_id =ₜ "") && not (c.token_secret =ₜ "")
        then with_api_token c.token_id c.token_secret ∷ []
        else [])
token_LoginsFit c lacks = elim (Bool-cases (c.token_id =ₜ "")) [
  | inl i ↦ rw i (tt, (omega arith, no_token (λ t. t.0 (empty c.token_id i))))
  | inr i ↦ elim (Bool-cases (c.token_secret =ₜ "")) [
    | inl s ↦ rw (i, s) (tt, (omega arith, no_token (λ t. t.1 (empty c.token_secret s))))
    | inr s ↦
        rw (i, s)
          (
            (((refl, not_empty c.token_id i), (refl, not_empty c.token_secret s), lacks), tt),
            (omega arith, λ _. refl),
          )
  ]
]
  where
    no_user : {X : Type 0} → (c.username ≢ "") × (c.password ≢ "") → X
    no_user (u, p) = elim lacks [ inl e ↦ absurd (u e) | inr e ↦ absurd (p e) ]

    no_token : {X : Type 0} → ((c.token_id ≢ "") × (c.token_secret ≢ "") → ⊥) → CanLogIn c → X
    no_token n (inl up) = no_user up
    no_token n (inr t) = absurd (n t)

login_options-LoginsFit : (c : ProxmoxConfig) → LoginsFit c (login_options c)
unfolding login_options
login_options-LoginsFit c = elim (Bool-cases (c.password =ₜ "")) [
  | inl p ↦ rw p (token_LoginsFit c (inr (empty c.password p)))
  | inr p ↦ elim (Bool-cases (c.username =ₜ "")) [
    | inl u ↦ rw (p, u) (token_LoginsFit c (inl (empty c.username u)))
    | inr u ↦
        rw (p, u)
          (
            (((refl, not_empty c.username u), (refl, not_empty c.password p), refl), tt),
            (omega arith, λ _. refl),
          )
  ]
]

insecure-LoginsFit :
    (c : ProxmoxConfig) (os : List ConnectionOption)
    → LoginsFit c os
    → c.insecure_skip_verify ≡ true
    → LoginsFit c (os ++ with_http_client 30 true ∷ [])
insecure-LoginsFit c os (fit, (few, one)) h =
    (fits os fit, (rw (same os) few, λ can. same os ∙ one can))
  where
    fits :
        (os : List ConnectionOption)
        → All (FitsSettings c) os
        → All (FitsSettings c) (os ++ with_http_client 30 true ∷ [])
    fits [] k = ((h, refl), tt)
    fits (o ∷ os) k = (k.0, fits os k.1)

    same : (os : List ConnectionOption) → logins (os ++ with_http_client 30 true ∷ []) ≡ logins os
    same [] = refl
    same (with_credentials _ _ _ ∷ os) = ap (λ n. n + 1) (same os)
    same (with_api_token _ _ ∷ os) = ap (λ n. n + 1) (same os)
    same (with_http_client _ _ ∷ os) = same os

append-nil : (os : List ConnectionOption) → os ++ [] ≡ os
append-nil [] = refl
append-nil (o ∷ os) = ap (λ l. o ∷ l) (append-nil os)

-- The HTTP client that the settings ask for, by their flag.
insecure_if-LoginsFit :
    (c : ProxmoxConfig) (skip : Bool)
    → c.insecure_skip_verify ≡ skip
    → LoginsFit c (login_options c ++ (if skip then with_http_client 30 true ∷ [] else []))
insecure_if-LoginsFit c true h =
    insecure-LoginsFit c (login_options c) (login_options-LoginsFit c) h
insecure_if-LoginsFit c false h = rw (append-nil (login_options c)) (login_options-LoginsFit c)

-- The connection options say what the config file says. They hold one login at most, none with an
-- empty name or secret, and one if the file has a user with a password or a token with a secret;
-- the token is used only where the user or the password is missing, and certificates go unchecked
-- only where the file asks for it.
pub proxmox_options-LoginsFit : (c : ProxmoxConfig) → LoginsFit c (proxmox_options c)
unfolding proxmox_options
proxmox_options-LoginsFit c = insecure_if-LoginsFit c c.insecure_skip_verify refl
