-- ===== src/MeshCollector/Views/Activity.antt =====
-- The declared edges are reported with the time when each was last seen, seen or not.
use benzene_go.Prelude.{
  ℕ, String, refl, ap, inl, inr, Bool, none, some, [], string_eq, Bool-cases, is_some, ◌≡◌, ◌∷◌,
  if◌then◌else◌, ◌==◌,
}
use benzene_go.Maps.{Map, lookup}
use benzene_go.Topic.{topic_eq}
use benzene_go.Mesh.Issues.{count_at}
use benzene_go.MeshCollector.Views.{activity_for}

-- The time of a declared edge, and nothing of one that is not declared.
pub lookup-activity_for :
    (service : String) (declared : Map String Bool) (last_seen : Map String ℕ)
    → lookup service (activity_for declared last_seen) ≡ (
        if is_some (lookup service declared)
        then some (count_at (lookup service last_seen))
        else none)
unfolding activity_for lookup
lookup-activity_for service [] last_seen = refl
lookup-activity_for service ((other, b) ∷ declared) last_seen =
    elim (Bool-cases (other == service)) [
      | inl same ↦ rw same (
          ap (λ k. some (count_at (lookup k last_seen)))
            ((string_eq.equal_iff other service).0 same))
      | inr differs ↦ rw differs (lookup-activity_for service declared last_seen)
    ]
