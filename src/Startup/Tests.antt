-- ===== src/Startup/Tests.antt =====
-- A start on example libraries.
use omni_infra_provider_prox.Base.{
  String, ◌≡◌, refl, true, false, Bool, List, [], ◌∷◌, ◌||◌, ◌=ₜ◌, if◌then◌else◌,
}
use omni_infra_provider_prox.Errors.{ok, err, error_new}
use omni_infra_provider_prox.Startup.{
  ProxmoxConfig, ConnectionOption, Flags, default_flags, FreshProvisioner, Libraries, Embedded,
  returns, runs, app, exit_code, run_command, proxmox_options, ◌>>=◌,
}
use omni_infra_provider_prox.Startup.Connection.{LoginsFit, proxmox_options-LoginsFit}
use omni_infra_provider_prox.Startup.Outcome.{EndsWell, app-EndsWell}

abbrev token : ProxmoxConfig
token = record {
  url = "https://pve:8006/api2/json";
  username = "root";
  password = "";
  realm = "pam";
  token_id = "root@pam!omni";
  token_secret = "s";
  insecure_skip_verify = true;
}

abbrev has_help : List String → Bool
has_help [] = false
has_help (a ∷ rest) = (a =ₜ "--help") || has_help rest

-- A file is its text; a client is the options that it was made with.
abbrev libraries :
    Libraries String (List ConnectionOption) (FreshProvisioner (List ConnectionOption))
libraries = record {
  parse = λ defaults arguments.
      if has_help arguments
      then returns (ok tt)
      else runs (record defaults { config_file = "proxmox.yaml" });
  build_logger = ok tt;
  open_file =
      λ name. if name =ₜ "proxmox.yaml" then ok "proxmox:" else err (error_new "no such file");
  decode = λ text. ok token;
  new_client = λ url options. options;
  new_provider = λ id provisioner config. ok provisioner;
  run = λ ip options. ok tt;
}

abbrev embedded : Embedded
embedded = record { icon = "PHN2Zz4"; schema = "{}"; tag = "v0.1.0" }

abbrev environment : String → String
environment name = if name =ₜ "OMNI_ENDPOINT" then "https://omni" else ""

abbrev flags : Flags
flags = record (default_flags environment) { config_file = "proxmox.yaml" }

helped : exit_code (app libraries embedded environment ("--help" ∷ [])) ≡ 0
unfolding app
helped = refl

ran : run_command libraries embedded flags ≡ ok tt
unfolding run_command ◌>>=◌
ran = refl

no_endpoint :
    run_command libraries embedded (record flags { omni_api_endpoint = "" })
    ≡ err (error_new "omni-api-endpoint flag is not set")
unfolding run_command ◌>>=◌
no_endpoint = refl

app-EndsWell_example :
    EndsWell libraries embedded environment
      ("--config-file" ∷ "proxmox.yaml" ∷ [])
      (libraries.parse (default_flags environment) ("--config-file" ∷ "proxmox.yaml" ∷ []))
app-EndsWell_example =
    app-EndsWell libraries embedded environment ("--config-file" ∷ "proxmox.yaml" ∷ [])
      (unfold app run_command ◌>>=◌ in refl)

proxmox_options-LoginsFit_example : LoginsFit token (proxmox_options token)
proxmox_options-LoginsFit_example = proxmox_options-LoginsFit token
