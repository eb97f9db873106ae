-- ===== src/Startup/Outcome.antt =====
-- How the start ends.
use omni_infra_provider_prox.Base.{
  subst, List, String, ◌≡◌, ◌≢◌, refl, false, ◌⊎◌, inl, inr, ◌=ₜ◌, eq_iff, arith, Bool-cases,
}
use omni_infra_provider_prox.Errors.{Error, Result, ok, err}
use omni_infra_provider_prox.Startup.{
  ProxmoxConfig, Flags, default_flags, Invocation, returns, runs, execute, app, new_provisioner,
  Libraries, Embedded, run_command, client_of, provider_config, run_options, config_error, or_else,
  wrapped, ◌>>=◌, exit_code,
}

bind_cases :
    {A B : Type 0} (Q : Result B → Type 0) (m : Result A) (f : A → Result B)
    → ((e : Error) → Q (err e))
    → ((a : A) → m ≡ ok a → Q (f a))
    → Q (m >>= f)
unfolding ◌>>=◌
bind_cases Q (ok a) f fails goes = goes a refl
bind_cases Q (err e) f fails goes = fails e

or_else_ok : {A : Type 0} (e : Error) (m : Result A) (a : A) → or_else e m ≡ ok a → m ≡ ok a
or_else_ok e (ok b) a h = h
or_else_ok e (err x) a h = absurd (ground arith)

wrapped_ok :
    {A : Type 0} (before : String) (m : Result A) (a : A) → wrapped before m ≡ ok a → m ≡ ok a
wrapped_ok before (ok b) a h = h
wrapped_ok before (err x) a h = absurd (ground arith)

module _ {File C P : Type 0} (libs : Libraries File C P) (embedded : Embedded) (flags : Flags) where
  -- A start that got as far as the run of a provider, with the outcome of the run: the endpoint is set, the
  -- settings were read from the config file, and the provider was made for them over a fresh provisioner.
  pub record HasRun (r : Result (Unit {0})) : Type 0 where
    pub has_endpoint : flags.omni_api_endpoint ≢ ""
    pub file : File
    pub opened : libs.open_file flags.config_file ≡ ok file
    pub config : ProxmoxConfig
    pub decoded : libs.decode file ≡ ok config
    pub provider : P
    pub made :
        libs.new_provider flags.provider_id
          (new_provisioner (client_of libs embedded flags config))
          (provider_config libs embedded flags)
        ≡ ok provider
    pub outcome : libs.run provider (run_options libs embedded flags) ≡ r

  test_endpoint : (flags.omni_api_endpoint =ₜ "") ≡ false → flags.omni_api_endpoint ≢ ""
  test_endpoint h = λ e. ground (arith, eq_iff flags.omni_api_endpoint "")

  abbrev StartOf : Result (Unit {0}) → Type 0
  StartOf r = ((e : Error) × (r ≡ err e)) ⊎ HasRun r

  -- The start ends with an error, or a provider ran and the outcome is its own.
  run_command-StartOf : StartOf (run_command libs embedded flags)
  unfolding run_command
  run_command-StartOf =
      let fails = λ (e : Error). inl (e, refl) in
      bind_cases StartOf (wrapped "failed to create logger: " libs.build_logger) _ fails λ _ l.
        elim (Bool-cases (flags.omni_api_endpoint =ₜ "")) [
          | inl unset ↦ rw unset (inl (_, refl))
          | inr set ↦ rw set (
              bind_cases StartOf (or_else (config_error flags) (libs.open_file flags.config_file)) _
                fails
                λ file o.
                  bind_cases StartOf (or_else (config_error flags) (libs.decode file)) _ fails
                    λ config d.
                      bind_cases StartOf
                        (wrapped "failed to create infra provider: " (
                          libs.new_provider flags.provider_id
                            (new_provisioner (client_of libs embedded flags config))
                            (provider_config libs embedded flags)))
                        _ fails
                        λ provider m. inr (record {
                          has_endpoint = test_endpoint set;
                          file = file;
                          opened = or_else_ok _ _ file o;
                          config = config;
                          decoded = or_else_ok _ _ config d;
                          provider = provider;
                          made = wrapped_ok _ _ provider m;
                          outcome = refl;
                        }))
        ]

  command-HasRun : run_command libs embedded flags ≡ ok tt → HasRun (ok tt)
  command-HasRun h = ended run_command-StartOf
    where
      ended : StartOf (run_command libs embedded flags) → HasRun (ok tt)
      ended (inl (e, x)) = absurd (ground (arith, h, x))
      ended (inr run) = subst HasRun h run

module _ {File C P : Type 0} (libs : Libraries File C P) (embedded : Embedded)
    (env : String → String) (arguments : List String) where
  -- Cobra was done without the command, or ran it with these flags.
  abbrev pub EndsWell : Invocation → Type 0
  EndsWell (returns r) = r ≡ ok tt
  EndsWell (runs flags) = HasRun libs embedded flags (ok tt)

  execute-EndsWell : (i : Invocation) → exit_code (execute libs embedded i) ≡ 0 → EndsWell i
  execute-EndsWell (returns (ok tt)) h = refl
  execute-EndsWell (returns (err e)) h = absurd (omega arith)
  execute-EndsWell (runs flags) h = command-HasRun libs embedded flags (code _ h)
    where
      code : (r : Result (Unit {0})) → exit_code r ≡ 0 → r ≡ ok tt
      code (ok tt) h = refl
      code (err e) h = absurd (omega arith)

  -- If the program ends with exit code 0, cobra was done with the arguments without running the
  -- command and without an error, as for help; or it ran the command with some flags, the endpoint of
  -- Omni was set, the settings were read from the config file that the flags name, a provider was
  -- made under the id of the flags over a fresh provisioner with a client for these settings, and the
  -- run of that provider ended without an error.
  pub app-EndsWell :
      exit_code (app libs embedded env arguments) ≡ 0
      → EndsWell (libs.parse (default_flags env) arguments)
  unfolding app
  app-EndsWell h = execute-EndsWell (libs.parse (default_flags env) arguments) h
