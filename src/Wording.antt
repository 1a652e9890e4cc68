-- ===== src/Wording.antt =====
-- What an operator reads of the counts: deploymentStatusSummary and publicationActionLabel
-- (ui/src/deployment-status.js), collectorSummaryText (ui/src/collector-management.js),
-- managedPolicyDestinationSummary (ui/src/policy-management.js), and publicUrlSourceDetails and
-- proxyModeDetails (ui/src/network-settings.js).
use Prim.Native.String
use otel_opamp_control_plane.Js.{Value, is}
use otel_opamp_control_plane.Js.Decimal.{decimal}
use otel_opamp_control_plane.Js.Text.{join}
use otel_opamp_control_plane.Js.Messages.{messages}
use otel_opamp_control_plane.Deployment.{Deployment}
use otel_opamp_control_plane.Collector.Summary.{CollectorStatus, Counts, CollectorSummary}
use otel_opamp_control_plane.Policy.Summary.{Summary, SummaryStatus}
use otel_opamp_control_plane.Prelude.{
  ℕ, String, Bool, true, false, ◌&&◌, List, [], ◌∷◌, ltb, eqb, if◌then◌else◌,
}

-- `if (n) details.push(`${n} …`)`
abbrev pub counted : ℕ → String → Bool × String
counted n label = (ltb 0 n, String.◌++◌ (decimal n) label)

-- `${a}/${b} …`
abbrev pub share : ℕ → ℕ → String → String
share a b label = String.◌++◌ (decimal a) (String.◌++◌ "/" (String.◌++◌ (decimal b) label))

abbrev pub join_details : List String → String
join_details details = join " · " details

unfoldable pub deployment_status_summary : Deployment → String
deployment_status_summary d =
    let details =
      share d.applied d.matched " destino(s) vivo(s) aplicada(s)"
      ∷ messages (
          counted d.failed " rechazada(s)"
          ∷ counted d.pending " pendiente(s)"
          ∷ counted d.not_in_use " no la usa(n)"
          ∷ []) in
    if eqb d.matched 0
    then "No hay destinos actualmente en línea para confirmar esta versión."
    else join_details details

unfoldable pub publication_action_label : Value → String
publication_action_label action =
    if is action "ROLLBACK"
    then "Restauración publicada"
    else if is action "DEACTIVATED"
    then "Retiro publicado"
    else "Publicación registrada"

-- The text without a live target.
abbrev pub no_targets : (degraded historical unknown : ℕ) → String
no_targets degraded historical unknown =
    String.◌++◌
      (join_details (
        "Sin destinos actualmente en línea"
        ∷ messages (
            counted degraded " señal(es) degradada(s)"
            ∷ counted historical " registro(s) histórico(s)"
            ∷ counted unknown " estado(s) desconocido(s)"
            ∷ [])))
      "."

abbrev pub collector_details : Counts → List String
collector_details c =
    share c.applied c.desired_matched " destino(s) vivo(s) coincidente(s) aplicada(s)"
    ∷ messages (
        counted c.failed " rechazada(s)"
        ∷ counted c.pending " pendiente(s)"
        ∷ counted c.superseded " reemplazada(s)"
        ∷ (
          ltb 0 c.base_applied && ltb 0 c.removal_matched,
          String.◌++◌ (decimal c.base_applied) " fallback(s) confirmado(s)",
        )
        ∷ counted c.removed " retiro(s) confirmado(s) por reemplazo administrado"
        ∷ counted c.base_pending " fallback(s) pendiente(s)"
        ∷ counted c.historical " registro(s) histórico(s) excluido(s)"
        ∷ counted c.degraded " señal(es) degradada(s)"
        ∷ counted c.unknown " estado(s) desconocido(s)"
        ∷ [])

-- The texts that depend on the counts alone.
abbrev pub collector_counts_text : Counts → String
collector_counts_text c =
    if eqb c.matched 0
    then no_targets c.degraded c.historical c.unknown
    else join_details (collector_details c)

unfoldable pub collector_summary_text : CollectorSummary → String
collector_summary_text s = elim s.status [
  | CollectorStatus.removed ↦
      share s.counts.removed s.counts.matched
        " Supervisor(es) confirmaron el retiro mediante otra configuración administrada."
  | CollectorStatus.base_applied ↦
      share s.counts.base_applied s.counts.matched " Supervisor(es) confirmaron la base NOP."
  | CollectorStatus.base_pending ↦
      share s.counts.base_applied s.counts.matched " en base; falta confirmar el fallback."
  | CollectorStatus.base_failed ↦
      String.◌++◌ (decimal s.counts.base_failed) " Supervisor(es) no pudieron activar la base."
  | _ ↦ collector_counts_text s.counts
]

abbrev pub policy_details : Summary → List String
policy_details s =
    share s.applied s.desired_matched " destino(s) vivo(s) coincidente(s) aplicada(s)"
    ∷ messages (
        counted s.applied_stale " confirmación(es) histórica(s) degradada(s)"
        ∷ counted s.pending_replacement " reemplazo(s) pendiente(s)"
        ∷ counted s.failed " rechazada(s)"
        ∷ counted s.pending " pendiente(s)"
        ∷ counted s.not_in_use " usa(n) otra policy"
        ∷ counted s.removed " retirada(s)"
        ∷ counted s.removal_pending " retiro(s) pendiente(s)"
        ∷ (
          ltb 0 s.removal_matched && (eqb s.removal_pending 0 && ltb 0 s.removed),
          String.◌++◌ (decimal s.removed) " retiro(s) confirmado(s)",
        )
        ∷ counted s.historical " registro(s) histórico(s) excluido(s)"
        ∷ counted s.degraded " señal(es) degradada(s)"
        ∷ counted s.unknown " estado(s) desconocido(s)"
        ∷ [])

abbrev pub policy_counts_text : Summary → String
policy_counts_text s =
    if eqb s.matched 0
    then no_targets s.degraded s.historical s.unknown
    else join_details (policy_details s)

unfoldable pub managed_policy_destination_summary : Summary → String
managed_policy_destination_summary s = elim s.status [
  | SummaryStatus.deactivated ↦ "No se entrega a ningún destino."
  | SummaryStatus.removed ↦ share s.removed s.matched " destino(s) confirmaron el retiro."
  | _ ↦ policy_counts_text s
]

pub record SourceDetails : Type 0 where
  pub label : String
  pub detail : String
  pub legacy : Bool

unfoldable pub public_url_source_details : Value → SourceDetails
public_url_source_details source =
    if is source "SERVER_PUBLIC_URL"
    then record {
      label = "SERVER_PUBLIC_URL";
      detail = "Configuración actual recomendada.";
      legacy = false;
    }
    else if is source "AUTH_PUBLIC_URL"
    then record {
      label = "AUTH_PUBLIC_URL";
      detail = "Variable heredada mantenida por compatibilidad.";
      legacy = true;
    }
    else record {
      label = "Solicitud entrante";
      detail = "Fallback calculado desde la petición actual.";
      legacy = false;
    }

pub record ModeDetails : Type 0 where
  pub label : String
  pub detail : String

unfoldable pub proxy_mode_details : Value → ModeDetails
proxy_mode_details mode =
    if is mode "TRUSTED"
    then record {
      label = "Proxy confiable";
      detail = "Los headers forwarded sólo se aceptan desde los CIDR configurados.";
    }
    else record {
      label = "Acceso directo";
      detail = "La URL pública no depende de headers forwarded del proxy.";
    }
