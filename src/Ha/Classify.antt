-- ===== src/Ha/Classify.antt =====
-- `classify` and `isNodeUnreachable`: Proxmox errors are told apart by their text only.
use omni_infra_provider_prox.Base.{Bool, ◌&&◌, ◌||◌, if◌then◌else◌, text_contains}
use omni_infra_provider_prox.Errors.{Error, tagged, not_found, already_exists, conflict, infeasible}
use omni_infra_provider_prox.Exec.{M, map_error}

unfoldable pub classify : Error → Error
classify e =
    if text_contains e.text "no such resource"
      || text_contains e.text "no such ha rule"
      || text_contains e.text "not HA managed"
    then tagged not_found e
    else if text_contains e.text "already defined"
    then tagged already_exists e
    else if text_contains e.text "detected modified configuration"
    then tagged conflict e
    else if text_contains e.text "' is invalid"
    then tagged infeasible e
    else e

-- `classify(f(…))`
abbrev pub classified : {S A : Type 0} → M S A → M S A
classified m = map_error classify m

unfoldable pub is_node_unreachable : Error → Bool
is_node_unreachable e =
    text_contains e.text "no such node"
    || (text_contains e.text "hostname lookup" && text_contains e.text "failed to get address info")
