-- ===== src/Trigger/Runtime.antt =====
-- What the daemon knows at run time of feeds and of resting levels
-- (crates/trigger/src/runtime.rs). The lock is left out: each operation below is one write or read
-- under it. Maps are lists of entries; the table of feeds has each pair once.
pub mod Quiet
pub mod LevelState
use nofomo.Prelude.{
  ℕ, ◌≡◌, Bool, true, false, not, ◌&&◌, ◌||◌, List, [], ◌∷◌, map, Text, msg, text_eq, Option, none,
  some, any, filter, ltb, ◌==◌, if◌then◌else◌, is_none,
}
use nofomo.Prelude.Int.{ℤ, pos, ltb_ℤ, saturating_sub_i64}
use nofomo.Price.Gates.{PricePair, PriceTick, pair_eq}
use nofomo.Strategy.Order.{
  Order, OrderStatus, pending, submitted, filled, failed, quarantined, status, status_eq,
}
use nofomo.Trigger.Fired.{cooling_down, of_level}

pub data FeedPhase : Type 0 where
  connecting ticking degraded ended : FeedPhase

pub record ObservedTick (F : Type 0) : Type 0 where
  pub price_usd : F
  pub published_at : ℤ
  pub accepted_at : ℤ

pub record FeedError : Type 0 where
  pub category : Text
  pub message : Text

pub record FeedState (F : Type 0) : Type 0 where
  pub phase : FeedPhase
  pub last_event_at : ℤ
  pub last_tick : Option (ObservedTick F)
  pub last_error : Option FeedError

pub record RuntimeStatus (F : Type 0) : Type 0 where
  pub started_at : ℤ
  pub allow_broadcast : Bool
  pub freshness_secs : ℤ
  pub feeds : List (PricePair × FeedState F)
  pub quiet_until : List (Text × ℤ)

pub data FeedHealth : Type 0 where
  connecting_health live stale degraded_health ended_health : FeedHealth

pub record FeedSnapshot (F : Type 0) : Type 0 where
  pub pair : PricePair
  pub health : FeedHealth
  pub last_event_at : ℤ
  pub last_tick : Option (ObservedTick F)
  pub last_error : Option FeedError

pub record RuntimeSnapshot (F : Type 0) : Type 0 where
  pub started_at : ℤ
  pub generated_at : ℤ
  pub allow_broadcast : Bool
  pub feeds : List (FeedSnapshot F)
  pub quiet_until : List (Text × ℤ)

pub data RuntimeLevelState : Type 0 where
  quarantined_level executing filled_level cooldown armed : RuntimeLevelState

abbrev source_error : FeedError
source_error = record {
  category = msg "source_error";
  message = msg "price source reported an error";
}

-- `quiet_until.get(id)`
unfoldable pub quiet_of : List (Text × ℤ) → Text → Option ℤ
quiet_of [] id = none
quiet_of ((j, until) ∷ m) id = if text_eq j id then some until else quiet_of m id

-- `quiet_until.remove(id)`
pub forget : List (Text × ℤ) → Text → List (Text × ℤ)
forget [] id = []
forget ((j, until) ∷ m) id =
    let rest = forget m id in if text_eq j id then rest else (j, until) ∷ rest

abbrev before : ℤ → Option ℤ → Bool
before now none = false
before now (some until) = ltb_ℤ now until

abbrev pub later : ℤ → List (Text × ℤ) → List (Text × ℤ)
later now m = filter (λ (entry : Text × ℤ). ltb_ℤ now entry.1) m

module _ {F : Type 0} where
  unfoldable pub new_at : ℤ → Bool → ℤ → RuntimeStatus F
  new_at started_at allow_broadcast freshness_secs = record {
    started_at = started_at;
    allow_broadcast = allow_broadcast;
    freshness_secs = if ltb_ℤ freshness_secs (pos 0) then pos 0 else freshness_secs;
    feeds = [];
    quiet_until = [];
  }

  pub feed_of : List (PricePair × FeedState F) → PricePair → Option (FeedState F)
  feed_of [] pair = none
  feed_of ((p, feed) ∷ m) pair = if pair_eq p pair then some feed else feed_of m pair

  -- Rewrite the feed of a pair, from what it was.
  pub put_feed :
      List (PricePair × FeedState F)
      → PricePair
      → (Option (FeedState F) → FeedState F)
      → List (PricePair × FeedState F)
  put_feed [] pair f = (pair, f none) ∷ []
  put_feed ((p, feed) ∷ m) pair f =
      let rest = put_feed m pair f in
      if pair_eq p pair then (p, f (some feed)) ∷ m else (p, feed) ∷ rest

  pub drop_feed : List (PricePair × FeedState F) → PricePair → List (PricePair × FeedState F)
  drop_feed [] pair = []
  drop_feed ((p, feed) ∷ m) pair =
      let rest = drop_feed m pair in if pair_eq p pair then rest else (p, feed) ∷ rest

  -- `entry(pair).or_insert_with(…)`
  abbrev fresh_feed : ℤ → Option (FeedState F) → FeedState F
  fresh_feed at none = record {
    phase = connecting;
    last_event_at = at;
    last_tick = none;
    last_error = none;
  }
  fresh_feed at (some feed) = feed

  unfoldable pub feed_connecting : RuntimeStatus F → PricePair → ℤ → RuntimeStatus F
  unfolding put_feed
  feed_connecting s pair at = record s {
    feeds = put_feed s.feeds pair (λ old. record (fresh_feed at old) {
      phase = connecting;
      last_event_at = at;
      last_error = none;
    });
  }

  unfoldable pub feed_tick : RuntimeStatus F → PriceTick F → ℤ → RuntimeStatus F
  unfolding put_feed
  feed_tick s tick accepted_at = record s {
    feeds = put_feed s.feeds tick.pair (λ old. record {
      phase = ticking;
      last_event_at = accepted_at;
      last_tick = some (record {
        price_usd = tick.price_usd;
        published_at = tick.published_at;
        accepted_at = accepted_at;
      });
      last_error = none;
    });
  }

  unfoldable pub feed_error : RuntimeStatus F → PricePair → ℤ → RuntimeStatus F
  unfolding put_feed
  feed_error s pair at = record s {
    feeds = put_feed s.feeds pair (λ old. record (fresh_feed at old) {
      phase = degraded;
      last_event_at = at;
      last_error = some source_error;
    });
  }

  unfoldable pub feed_ended : RuntimeStatus F → PricePair → ℤ → RuntimeStatus F
  unfolding put_feed
  feed_ended s pair at = record s {
    feeds =
        put_feed s.feeds pair
          (λ old. record (fresh_feed at old) { phase = ended; last_event_at = at });
  }

  unfoldable pub remove_feed : RuntimeStatus F → PricePair → RuntimeStatus F
  unfolding drop_feed
  remove_feed s pair = record s { feeds = drop_feed s.feeds pair }

  unfoldable pub is_quiet : RuntimeStatus F → Text → ℤ → Bool
  unfolding quiet_of
  is_quiet s level_id now = before now (quiet_of s.quiet_until level_id)

  unfoldable pub set_quiet_until : RuntimeStatus F → Text → ℤ → RuntimeStatus F
  unfolding forget
  set_quiet_until s level_id until = record s {
    quiet_until = (level_id, until) ∷ forget s.quiet_until level_id;
  }

  unfoldable pub clear_quiet : RuntimeStatus F → Text → RuntimeStatus F
  unfolding forget
  clear_quiet s level_id = record s { quiet_until = forget s.quiet_until level_id }

  is_fresh : Option (ObservedTick F) → ℤ → ℤ → Bool
  is_fresh none now freshness_secs = false
  is_fresh (some tick) now freshness_secs =
      ltb_ℤ (saturating_sub_i64 now tick.accepted_at) freshness_secs

  phase_health : FeedPhase → Option (ObservedTick F) → ℤ → ℤ → FeedHealth
  phase_health connecting tick now freshness_secs = connecting_health
  phase_health degraded tick now freshness_secs = degraded_health
  phase_health ended tick now freshness_secs = ended_health
  phase_health ticking tick now freshness_secs =
      if is_fresh tick now freshness_secs then live else stale

  unfoldable pub health : FeedState F → ℤ → ℤ → FeedHealth
  unfolding is_fresh phase_health
  health feed now freshness_secs = phase_health feed.phase feed.last_tick now freshness_secs

abbrev text_lt : Text → Text → Bool
text_lt [] [] = false
text_lt [] (b ∷ t) = true
text_lt (a ∷ s) [] = false
text_lt (a ∷ s) (b ∷ t) = ltb a b || (a == b) && text_lt s t

-- The order of the feeds in a snapshot: by chain, then by address.
abbrev pair_lt : PricePair → PricePair → Bool
pair_lt a b =
    ltb a.chain_id b.chain_id
    || (a.chain_id == b.chain_id) && text_lt a.token_address b.token_address

module _ {F : Type 0} where
  place : FeedSnapshot F → List (FeedSnapshot F) → List (FeedSnapshot F)
  place x [] = x ∷ []
  place x (y ∷ ys) = let rest = place x ys in if pair_lt y.pair x.pair then y ∷ rest else x ∷ y ∷ ys

  -- `sort_by`
  sort_feeds : List (FeedSnapshot F) → List (FeedSnapshot F)
  sort_feeds [] = []
  sort_feeds (x ∷ xs) = place x (sort_feeds xs)

  unfoldable pub snapshot_at : RuntimeStatus F → ℤ → RuntimeSnapshot F
  unfolding place sort_feeds
  snapshot_at s generated_at = record {
    started_at = s.started_at;
    generated_at = generated_at;
    allow_broadcast = s.allow_broadcast;
    feeds = sort_feeds (
        map
          (λ (entry : PricePair × FeedState F).
            let feed = entry.1 in
            let shown : FeedSnapshot F = record {
              pair = entry.0;
              health = health feed generated_at s.freshness_secs;
              last_event_at = feed.last_event_at;
              last_tick = feed.last_tick;
              last_error = feed.last_error;
            } in
            shown)
          s.feeds);
    quiet_until = later generated_at s.quiet_until;
  }

  -- The one priority of a level's states.
  unfoldable pub snapshot_level_state :
      {V : Type 0} → RuntimeSnapshot F → Text → List (Order V) → RuntimeLevelState
  unfolding quiet_of
  snapshot_level_state snapshot level_id orders =
      let mine = of_level level_id orders in
      if any (λ o. status_eq (status o) quarantined) mine
      then quarantined_level
      else if any (λ o. status_eq (status o) pending || status_eq (status o) submitted) mine
      then executing
      else if any (λ o. status_eq (status o) filled) mine
      then filled_level
      else if not (is_none (quiet_of snapshot.quiet_until level_id))
          || cooling_down level_id orders snapshot.generated_at
      then cooldown
      else armed

  unfoldable pub level_state :
      {V : Type 0} → RuntimeStatus F → Text → List (Order V) → ℤ → RuntimeLevelState
  unfolding snapshot_at
  level_state s level_id orders now = snapshot_level_state (snapshot_at s now) level_id orders
