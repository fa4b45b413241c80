-- ===== src/Signaling/Mailbox.antt =====
-- The data of conformance/signaling/server/src/state.rs: roles, mailboxes, rooms and limits.
-- A `Notify` of tokio is known by its number; a blob is a list of bytes.
use wasi_webrtc_datachannels.Base.{
  ℕ, ◌+◌, String, Bool, true, false, Option, none, some, List, [], get_elem?, ◌==◌, nat_eq,
  string_eq, if◌then◌else◌,
}

pub data Role : Type 0 where
  offerer answerer : Role

unfoldable pub parse_role : String → Option Role
parse_role s =
    if s == "offerer" then some offerer else if s == "answerer" then some answerer else none

abbrev pub Blob : Type 0
Blob = List ℕ

pub data Fetch : Type 0 where
  blob : Blob → Fetch
  done : Fetch
  pending : Fetch

pub record Mailbox : Type 0 where
  pub blobs : List Blob
  pub done : Bool
  pub notify : ℕ

-- The three ways out of a fetch, from the blob found and the flag.
abbrev pub classify : Option Blob → Bool → Fetch
classify (some b) d = blob b
classify none true = Fetch.done
classify none false = pending

unfoldable pub peek : Mailbox → ℕ → Fetch
peek m seq = classify (get_elem? m.blobs seq) m.done

pub record Room : Type 0 where
  pub offerer : Mailbox
  pub answerer : Mailbox
  pub last_touched : ℕ

abbrev pub empty_mailbox : ℕ → Mailbox
empty_mailbox n = record { blobs = []; done = false; notify = n }

-- The two mailboxes of a new room get the next two notifiers.
abbrev pub new_room : ℕ → ℕ → Room
new_room now n = record {
  offerer = empty_mailbox n;
  answerer = empty_mailbox (n + 1);
  last_touched = now;
}

abbrev pub mailbox : Room → Role → Mailbox
mailbox r offerer = r.offerer
mailbox r answerer = r.answerer

-- A write through `mailbox_mut`.
abbrev pub set_mailbox : Room → Role → Mailbox → Room
set_mailbox r offerer m = record r { offerer = m }
set_mailbox r answerer m = record r { answerer = m }

pub data Publish : Type 0 where
  seq : ℕ → Publish
  done : Publish
  capacity : Publish

pub record Limits : Type 0 where
  pub room_ttl : ℕ
  pub max_rooms : ℕ
  pub max_blobs_per_mailbox : ℕ
