-- ===== src/Async/Coordinator.antt =====
-- BidAsyncCoordinator of internal/transport/ws/bid_async.go. The mutex makes each method one step.
-- What a method pushes to the hub is a second result; a timer is the flag `armed`, and its firing
-- is the step resend_timeout. Metrics are left out. A nil receiver is not modelled: no caller has one.
use Prim.Native.String.{◌++◌}
use aieas_backend.Prelude.{
  ℕ, ℤ, pos, String, Bool, true, false, not, if◌then◌else◌, Option, none, some, List, [], ◌∷◌, Time,
  lookup, insert, delete, nat_eq, string_eq, add64, sub64, ltb_ℤ, leb_ℤ, eqb_ℤ, is_empty, str_eq,
  ◌==◌, uint64_to_string,
}

-- Envelope of envelope.go; a payload is its bytes.
pub record Envelope : Type 0 where
  pub kind : String
  pub request_id : String
  pub seq : ℤ
  pub ack : Bool
  pub live_session_id : ℕ
  pub payload : List ℕ

abbrev pub no_envelope : Envelope
no_envelope = record {
  kind = "";
  request_id = "";
  seq = pos 0;
  ack = false;
  live_session_id = 0;
  payload = [];
}

-- bidPendingEntry
pub record PendingEntry : Type 0 where
  pub bid_id : String
  pub auction_id : ℕ
  pub session_id : ℕ
  pub user_id : String
  pub created_at : Time
  pub env : Envelope
  pub resolved : Bool
  pub attempts : ℤ
  pub armed : Bool

pub record Coordinator : Type 0 where
  pub max_pending_per_auction : ℤ
  pub ack_timeout : ℤ
  pub max_resend_attempts : ℤ
  pub pending : List (String × PendingEntry)
  pub auction_count : List (ℕ × ℤ)
  pub user_auction_key : List (String × String)

-- NewBidAsyncCoordinator
unfoldable pub new_coordinator : ℤ → ℤ → ℤ → Coordinator
new_coordinator max_pending ack_timeout max_resend = record {
  max_pending_per_auction = if leb_ℤ max_pending (pos 0) then pos 2000 else max_pending;
  ack_timeout = if leb_ℤ ack_timeout (pos 0) then pos 2000000000 else ack_timeout;
  max_resend_attempts = if leb_ℤ max_resend (pos 0) then pos 3 else max_resend;
  pending = [];
  auction_count = [];
  user_auction_key = [];
}

-- userAuctionPendingKey
unfoldable pub user_auction_pending_key : String → ℕ → String
user_auction_pending_key user_id auction_id =
    user_id ++ String.◌∷◌ ":" (uint64_to_string auction_id)

-- A missing key of a Go map reads as 0.
abbrev pub count_of : ℕ → List (ℕ × ℤ) → ℤ
count_of auction_id m = elim (lookup auction_id m) [ none ↦ pos 0 | some n ↦ n ]

pub data QueueReject : Type 0 where
  user_pending hot_auction_full : QueueReject

-- TryEnqueue, with its refusal; `now` is the clock's answer.
unfoldable pub try_enqueue :
    Coordinator → Time → ℕ → ℕ → String → String → Coordinator × Option QueueReject
try_enqueue c now auction_id session_id user_id bid_id =
    let key = user_auction_pending_key user_id auction_id in
    elim (lookup key c.user_auction_key) [
      | some _ ↦ (c, some user_pending)
      | none ↦
          if leb_ℤ c.max_pending_per_auction (count_of auction_id c.auction_count)
          then (c, some hot_auction_full)
          else (
            record c {
              pending =
                  insert bid_id
                    (record {
                      bid_id = bid_id;
                      auction_id = auction_id;
                      session_id = session_id;
                      user_id = user_id;
                      created_at = now;
                      env = no_envelope;
                      resolved = false;
                      attempts = pos 0;
                      armed = false;
                    })
                    c.pending;
              auction_count =
                  insert auction_id (add64 (count_of auction_id c.auction_count) (pos 1))
                    c.auction_count;
              user_auction_key = insert key bid_id c.user_auction_key;
            },
            none,
          )
    ]

-- A push to a user of a live session.
pub record Delivery : Type 0 where
  pub session_id : ℕ
  pub user_id : String
  pub env : Envelope

-- deliver
unfoldable pub deliver : ℕ → String → Envelope → List Delivery
deliver session_id user_id env =
    if session_id == 0
    then []
    else record { session_id = session_id; user_id = user_id; env = env } ∷ []

-- releaseLocked on the count of the auction.
unfoldable pub lower_count : ℕ → List (ℕ × ℤ) → List (ℕ × ℤ)
lower_count auction_id m =
    let n = count_of auction_id m in
    if ltb_ℤ (pos 0) n
    then if eqb_ℤ (sub64 n (pos 1)) (pos 0)
      then delete auction_id m
      else insert auction_id (sub64 n (pos 1)) m
    else m

-- releaseLocked
unfoldable pub release_bid : Coordinator → String → Coordinator
unfolding lower_count
release_bid c bid_id = elim (lookup bid_id c.pending) [
  | none ↦ c
  | some entry ↦ record c {
    pending = delete bid_id c.pending;
    auction_count = lower_count entry.auction_id c.auction_count;
    user_auction_key =
        delete (user_auction_pending_key entry.user_id entry.auction_id) c.user_auction_key;
  }
]

-- The entry with its result, as OnDecision leaves it.
abbrev pub decided_entry : PendingEntry → ℕ → Envelope → PendingEntry
decided_entry entry session_id env = record entry {
  session_id = if entry.session_id == 0 then session_id else entry.session_id;
  env = env;
  resolved = true;
  armed = true;
}

-- OnDecision
unfoldable pub on_decision :
    Coordinator → ℕ → String → String → Envelope → Coordinator × List Delivery
unfolding deliver
on_decision c session_id user_id bid_id env = elim (lookup bid_id c.pending) [
  | none ↦ (c, deliver session_id user_id env)
  | some entry ↦ (
    record c { pending = insert bid_id (decided_entry entry session_id env) c.pending },
    deliver session_id user_id env,
  )
]

-- HandleAck
unfoldable pub handle_ack : Coordinator → String → Coordinator
handle_ack c bid_id = if is_empty bid_id then c else release_bid c bid_id

-- The ids that ReleaseUser collects.
abbrev pub bids_of : String → List (String × PendingEntry) → List String
bids_of user_id [] = []
bids_of user_id ((bid_id, entry) ∷ m) =
    let rest = bids_of user_id m in if str_eq entry.user_id user_id then bid_id ∷ rest else rest

unfoldable pub release_all : Coordinator → List String → Coordinator
release_all c [] = c
release_all c (bid_id ∷ rest) = release_all (release_bid c bid_id) rest

-- ReleaseUser
unfoldable pub release_user : Coordinator → String → Coordinator
release_user c user_id = if is_empty user_id then c else release_all c (bids_of user_id c.pending)

-- onResendTimeout
unfoldable pub resend_timeout : Coordinator → String → Coordinator × List Delivery
unfolding deliver
resend_timeout c bid_id = elim (lookup bid_id c.pending) [
  | none ↦ (c, [])
  | some entry ↦
      let attempts = add64 entry.attempts (pos 1) in
      if not entry.resolved
      then (c, [])
      else if ltb_ℤ c.max_resend_attempts attempts
      then (release_bid c bid_id, [])
      else (
        record c {
          pending = insert bid_id (record entry { attempts = attempts; armed = true }) c.pending;
        },
        deliver entry.session_id entry.user_id entry.env,
      )
]

-- PendingForAuction
unfoldable pub pending_for_auction : Coordinator → ℕ → ℤ
pending_for_auction c auction_id =
    if auction_id == 0 then pos 0 else count_of auction_id c.auction_count
