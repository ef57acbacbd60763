-- ===== src/Databases/TimerUuid/Identity.antt =====
-- When `GenerateTimerUUID` (server/databases/timer_uuid.go) tells two timers apart.
use mathlib.Core.Option.{some-injective}
use durable_timer.Base.{String, ◌<>◌, ◌≡◌, refl, ap, sym, ◌∙◌, cut_at, cut_at-separated, IsFreeOf}
use durable_timer.Databases.Models.{Uuid}
use durable_timer.Databases.TimerUuid.{generate_timer_uuid}

-- Where no namespace holds a `:` and the digest has no collision between the two texts that are
-- hashed, timers with one UUID have one namespace and one id.
pub generate_timer_uuid_injective :
    (md5 : String → Uuid) (ns ns' id id' : String)
    → IsFreeOf b':' ns
    → IsFreeOf b':' ns'
    → (md5 (ns <> ":" <> id) ≡ md5 (ns' <> ":" <> id') → ns <> ":" <> id ≡ ns' <> ":" <> id')
    → generate_timer_uuid md5 ns id ≡ generate_timer_uuid md5 ns' id'
    → (ns ≡ ns') × (id ≡ id')
unfolding generate_timer_uuid
generate_timer_uuid_injective md5 ns ns' id id' free free' inj h =
    (ap (λ p. p.0) same, ap (λ p. p.1) same)
  where
    same : ◌≡◌ {A = String × String} (ns, id) (ns', id')
    same = some-injective _ _ (
        sym (cut_at-separated b':' ":" ns id refl free)
        ∙ ap (cut_at b':') (inj h)
        ∙ cut_at-separated b':' ":" ns' id' refl free')
