-- ===== src/Siem/Review/Queue/Views.antt =====
-- The questions that components/active-siem/crates/review-queue/src/queue.rs answers of a queue.
use active_spectral_defense.Base.{
  ℕ, ◌+◌, Bool, String, Option, List, [], ◌∷◌, if◌then◌else◌, String-discrete, Unicode,
}
use active_spectral_defense.Float.{Float}
use active_spectral_defense.Map.{Map, size, lookup}
use active_spectral_defense.Siem.Ontology.{Result}
use active_spectral_defense.Siem.Review.{
  ReviewState, auto_resolved, pending, under_review, resolved, QueueItem,
}
use active_spectral_defense.Siem.Review.Containment.{
  ContainmentDecision, ContainmentError, check, execute_if_approved,
}
use active_spectral_defense.Siem.Review.Queue.{is_open, ReviewQueue}

pub record QueueStats : Type 0 where
  pub total : ℕ
  pub auto_resolved : ℕ
  pub pending : ℕ
  pub under_review : ℕ
  pub resolved : ℕ

module _ (f64 : Float) where
  unfoldable pub get : String → ReviewQueue f64 → Option (QueueItem f64)
  get flow_id q = lookup String-discrete flow_id q.items

  unfoldable pub open_items : Map String (QueueItem f64) → List (QueueItem f64)
  unfolding is_open
  open_items [] = []
  open_items ((_, item) ∷ m) =
      let rest = open_items m in if is_open item.state then item ∷ rest else rest

  unfoldable pub list_pending : ReviewQueue f64 → List (QueueItem f64)
  unfolding open_items
  list_pending q = open_items q.items

  unfoldable pub list_all : Map String (QueueItem f64) → List (QueueItem f64)
  list_all [] = []
  list_all ((_, item) ∷ m) = item ∷ list_all m

  unfoldable pub count : ReviewState → QueueStats → QueueStats
  count (auto_resolved _) stats = record stats { auto_resolved = stats.auto_resolved + 1 }
  count (pending _) stats = record stats { pending = stats.pending + 1 }
  count (under_review _ _ _) stats = record stats { under_review = stats.under_review + 1 }
  count (resolved _) stats = record stats { resolved = stats.resolved + 1 }

  unfoldable pub count_all : Map String (QueueItem f64) → QueueStats → QueueStats
  unfolding count
  count_all [] stats = stats
  count_all ((_, item) ∷ m) stats = count_all m (count item.state stats)

  unfoldable pub stats : ReviewQueue f64 → QueueStats
  unfolding count_all
  stats q =
      let counted =
        count_all q.items
          (record { total = 0; auto_resolved = 0; pending = 0; under_review = 0; resolved = 0 }) in
      record counted { total = size q.items }

  module _ (unicode : Unicode) where
    unfoldable pub containment_decision : String → ReviewQueue f64 → ContainmentDecision
    containment_decision flow_id q = check f64 unicode q.engine flow_id

    unfoldable pub execute_containment_if_approved :
        {A : Type 0}
        → (String → A → Bool × A)
        → String
        → ReviewQueue f64
        → A
        → Result ContainmentError ContainmentDecision × A
    execute_containment_if_approved execute flow_id q a =
        execute_if_approved f64 unicode execute q.engine flow_id a
