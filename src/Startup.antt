-- ===== src/Startup.antt =====
-- cmd/omni-infra-provider-proxmox/main.go with the connection settings of internal/pkg/config/config.go, and
-- `NewProvisioner` of provision.go: from the flags and the config file to a provider that runs. The libraries
-- that open a file, decode YAML, make a client, and make and run a provider are parameters; log lines are
-- left out.
pub mod Connection
pub mod Outcome
pub mod Version
mod Tests
use omni_infra_provider_prox.Base.{
  ℕ, String, ◌^^◌, Bool, true, false, not, ◌&&◌, List, [], ◌∷◌, ◌++◌, ◌=ₜ◌, if◌then◌else◌, Map,
  quoted,
}
use omni_infra_provider_prox.Errors.{Error, Result, ok, err, error_new, wrap}
use omni_infra_provider_prox.Scheduler.History.{SchedulerState, new_scheduler}

-- `config.Proxmox`
pub record ProxmoxConfig : Type 0 where
  pub url : String
  pub username : String
  pub password : String
  pub realm : String
  pub token_id : String
  pub token_secret : String
  pub insecure_skip_verify : Bool

-- `cfg`, and `meta.ProviderID`, which a flag sets too.
pub record Flags : Type 0 where
  pub omni_api_endpoint : String
  pub service_account_key : String
  pub provider_id : String
  pub provider_name : String
  pub provider_description : String
  pub config_file : String
  pub insecure_skip_verify : Bool

-- The flags where none is given, in an environment.
abbrev pub default_flags : (env : String → String) → Flags
default_flags env = record {
  omni_api_endpoint = env "OMNI_ENDPOINT";
  service_account_key = env "OMNI_SERVICE_ACCOUNT_KEY";
  provider_id = "proxmox";
  provider_name = "Proxmox";
  provider_description = "Proxmox infrastructure provider";
  config_file = "";
  insecure_skip_verify = false;
}

-- `proxmox.Option`, and of the HTTP client what the program sets.
pub data ConnectionOption : Type 0 where
  with_credentials : (username password realm : String) → ConnectionOption
  with_api_token : (id secret : String) → ConnectionOption
  with_http_client : (timeout_seconds : ℕ) (insecure_skip_verify : Bool) → ConnectionOption

unfoldable pub login_options : ProxmoxConfig → List ConnectionOption
login_options c =
    if not (c.password =ₜ "") && not (c.username =ₜ "")
    then with_credentials c.username c.password c.realm ∷ []
    else if not (c.token_id =ₜ "") && not (c.token_secret =ₜ "")
    then with_api_token c.token_id c.token_secret ∷ []
    else []

unfoldable pub proxmox_options : ProxmoxConfig → List ConnectionOption
proxmox_options c =
    login_options c ++ (if c.insecure_skip_verify then with_http_client 30 true ∷ [] else [])

-- `client.Option`
pub data ClientOption : Type 0 where
  with_insecure_skip_tls_verify : Bool → ClientOption
  with_service_account : String → ClientOption

unfoldable pub client_options : Flags → List ClientOption
client_options flags =
    with_insecure_skip_tls_verify flags.insecure_skip_verify
    ∷ (if flags.service_account_key =ₜ ""
        then []
        else with_service_account flags.service_account_key ∷ [])

-- `infra.ProviderConfig`
pub record ProviderConfig : Type 0 where
  pub name : String
  pub description : String
  pub icon : String
  pub schema : String

-- `infra.Option`s of the run.
pub record RunOptions : Type 0 where
  pub omni_endpoint : String
  pub client : List ClientOption
  pub encode_request_ids_into_tokens : Bool
  pub version : String

-- `Provisioner`, over a client. Its HA manager holds nothing but the same client.
pub record FreshProvisioner (C : Type 0) : Type 0 where
  pub client : C
  pub scheduler : SchedulerState
  pub pending_iso_downloads : Map String

abbrev pub new_provisioner : {C : Type 0} → C → FreshProvisioner C
new_provisioner client = record {
  client = client;
  scheduler = new_scheduler;
  pending_iso_downloads = [];
}

-- What cobra's `ExecuteContext` makes of the arguments: it returns by itself, with an error or, as for help,
-- without one; or it has set the flags and runs `RunE`, whose error it returns.
pub data Invocation : Type 0 where
  returns : Result (Unit {0}) → Invocation
  runs : Flags → Invocation

-- What the program takes from libraries: `C` are the clients of Proxmox, `P` the providers.
pub record Libraries (File C P : Type 0) : Type 0 where
  pub parse : (defaults : Flags) (arguments : List String) → Invocation
  pub build_logger : Result (Unit {0})
  pub open_file : String → Result File
  pub decode : File → Result ProxmoxConfig
  pub new_client : String → List ConnectionOption → C
  pub new_provider : String → FreshProvisioner C → ProviderConfig → Result P
  pub run : P → RunOptions → Result (Unit {0})

-- What is embedded into the program, the icon in base 64.
pub record Embedded : Type 0 where
  pub icon : String
  pub schema : String
  pub tag : String

infixl 5 ◌>>=◌ ◌>>◌
unfoldable pub ◌>>=◌ : {A B : Type 0} → Result A → (A → Result B) → Result B
ok a >>= f = f a
err e >>= f = err e

abbrev ◌>>◌ : {A B : Type 0} → Result A → Result B → Result B
r >> s = r >>= λ _. s

-- The error of a call is replaced, and its text lost.
abbrev pub or_else : {A : Type 0} → Error → Result A → Result A
or_else e (ok a) = ok a
or_else e (err _) = err e

abbrev pub wrapped : {A : Type 0} → String → Result A → Result A
wrapped before (ok a) = ok a
wrapped before (err e) = err (wrap before e "")

abbrev pub config_error : Flags → Error
config_error flags = error_new ("failed to read Proxmox config file " ^^ quoted flags.config_file)

-- The exit code of `main`.
abbrev pub exit_code : Result (Unit {0}) → ℕ
exit_code (ok _) = 0
exit_code (err e) = 1

module _ {File C P : Type 0} (libs : Libraries File C P) (embedded : Embedded) (flags : Flags) where
  -- The client that the settings ask for.
  abbrev pub client_of : ProxmoxConfig → C
  client_of c = libs.new_client c.url (proxmox_options c)

  abbrev pub provider_config : ProviderConfig
  provider_config = record {
    name = flags.provider_name;
    description = flags.provider_description;
    icon = embedded.icon;
    schema = embedded.schema;
  }

  abbrev pub run_options : RunOptions
  run_options = record {
    omni_endpoint = flags.omni_api_endpoint;
    client = client_options flags;
    encode_request_ids_into_tokens = true;
    version = embedded.tag;
  }

  -- `RunE` of `rootCmd`
  unfoldable pub run_command : Result (Unit {0})
  run_command = do
    wrapped "failed to create logger: " libs.build_logger
    if flags.omni_api_endpoint =ₜ ""
        then err (error_new "omni-api-endpoint flag is not set")
        else do
          file ← or_else (config_error flags) (libs.open_file flags.config_file)
          config ← or_else (config_error flags) (libs.decode file)
          ip ← wrapped "failed to create infra provider: " (
              libs.new_provider flags.provider_id (new_provisioner (client_of config))
                provider_config)
          libs.run ip run_options

module _ {File C P : Type 0} (libs : Libraries File C P) (embedded : Embedded) where
  -- `ExecuteContext` of `rootCmd`
  abbrev pub execute : Invocation → Result (Unit {0})
  execute (returns r) = r
  execute (runs flags) = run_command libs embedded flags

  -- `app`, over the flags that `init` registers.
  unfoldable pub app : (env : String → String) (arguments : List String) → Result (Unit {0})
  app env arguments = execute (libs.parse (default_flags env) arguments)
