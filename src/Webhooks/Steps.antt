-- ===== src/Webhooks/Steps.antt =====
-- What happens to the deliveries, as a relation between the tables before and after one step, and any
-- number of them.
use mathlib.Core.List.{Memᴰ}
use painfree_ebics_middlewar.Prelude.{ℕ, Text, Bool, true, some, ◌≡◌}
use painfree_ebics_middlewar.Webhooks.Rows.{DeliveryState, DeliveryRow, Hooks, is_delivery}
use painfree_ebics_middlewar.Webhooks.FanOut.{AuditedEvent, fan_out}
use painfree_ebics_middlewar.Webhooks.Dispatch.{claim_delivery}
use painfree_ebics_middlewar.Webhooks.Finish.{Posted, finish_delivery}
use painfree_ebics_middlewar.Webhooks.Manage.{set_enabled, resume, enqueue_ping}

-- The delivery that a dispatcher claimed is still under way.
abbrev pub StillHeld : DeliveryRow → Hooks → Type 0
StillHeld claimed s =
    (x : DeliveryRow)
    → Memᴰ x s.deliveries
    → is_delivery claimed.delivery_id x ≡ true
    → x.state ≡ DeliveryState.delivering

-- A dispatcher claims; a dispatcher finishes what it still holds; an audit event is fanned out; an operator
-- pauses, resumes or tests a subscription.
pub data Step : Hooks → Hooks → Type 0 where
  claims :
      (worker : Text) → (now lease : ℕ) → (s : Hooks) → Step s (claim_delivery worker now lease s).1
  finishes :
      (said : ℕ → Text)
      → (claimed : DeliveryRow) → (answer : Posted) → (now : ℕ) → (s : Hooks) → StillHeld claimed s
      → Step s (finish_delivery said claimed answer now s).1
  owes :
      (ids : Text → Text)
      → (e : AuditedEvent) → (now : ℕ) → (s t : Hooks) → fan_out ids e now s ≡ some t
      → Step s t
  pauses :
      (id : Text)
      → (enabled : Bool) → (now : ℕ) → (s : Hooks) → Step s (set_enabled id enabled now s).1
  resumes : (id : Text) → (now : ℕ) → (s : Hooks) → Step s (resume id now s)
  pings :
      (event_id delivery_id body id : Text)
      → (now : ℕ) → (s : Hooks) → Step s (enqueue_ping event_id delivery_id body id now s).1

pub data Steps : Hooks → Hooks → Type 0 where
  here : (s : Hooks) → Steps s s
  then : {s t u : Hooks} → Steps s t → Step t u → Steps s u
