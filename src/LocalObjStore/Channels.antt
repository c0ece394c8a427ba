-- ===== src/LocalObjStore/Channels.antt =====
-- How a Get of go/cmd/localobjstore/main.go that has not the object meets the LocationFound that brings
-- its location: any number of calls of both, one step at a time, over the map `localObjectChannels`
-- of unbuffered channels. A channel is a number, the next one at each `make`.
pub mod Owners
pub mod Stranded
pub mod Served
mod Tests
use babyray.Common.{ℕ, ◌+◌, ◌≡◌, Bool, true, false, Option, none, some, List, [], ◌∷◌, ◌++◌}
use babyray.Common.Dict.{Dict, lookup, insert}
use babyray.Wire.{LocationFoundCallback}

-- Where a Get stands that missed: its channel is made and RequestLocation under way; at the receive
-- from the channel that the map had when it came there; or past it.
pub data GetPc : Type 0 where
  asking : (uid : ℕ) → GetPc
  receiving : (uid : ℕ) → (channel : ℕ) → GetPc
  resumed : (uid : ℕ) → LocationFoundCallback → GetPc

-- Where a LocationFound stands: at the send, on the channel that the map had, which without an entry
-- is nil and blocks for ever; or past it.
pub data FoundPc : Type 0 where
  sending : (channel : Option ℕ) → LocationFoundCallback → FoundPc
  sent : LocationFoundCallback → FoundPc

pub record Rendezvous : Type 0 where
  pub local_object_channels : Dict ℕ
  pub made : ℕ
  pub gets : List GetPc
  pub founds : List FoundPc

pub data Meeting (s t : Rendezvous) : Type 0 where
  miss :
      (uid : ℕ)
      → t ≡ record s {
        local_object_channels = insert uid s.made s.local_object_channels;
        made = s.made + 1;
        gets = asking uid ∷ s.gets;
      }
      → Meeting s t
  receive :
      (before after : List GetPc) (uid channel : ℕ)
      → s.gets ≡ before ++ (asking uid ∷ after)
      → lookup uid s.local_object_channels ≡ some channel
      → t ≡ record s { gets = before ++ (receiving uid channel ∷ after) }
      → Meeting s t
  found :
      (callback : LocationFoundCallback)
      → t ≡ record s {
        founds = sending (lookup callback.uid s.local_object_channels) callback ∷ s.founds;
      }
      → Meeting s t
  meet :
      (before after : List GetPc) (before' after' : List FoundPc) (uid channel : ℕ)
      (callback : LocationFoundCallback)
      → s.gets ≡ before ++ (receiving uid channel ∷ after)
      → s.founds ≡ before' ++ (sending (some channel) callback ∷ after')
      → t ≡ record s {
        gets = before ++ (resumed uid callback ∷ after);
        founds = before' ++ (sent callback ∷ after');
      }
      → Meeting s t

abbrev pub no_calls : Rendezvous
no_calls = record { local_object_channels = []; made = 0; gets = []; founds = [] }

-- What comes of `s` after some steps.
pub data Meetings (s : Rendezvous) : Rendezvous → Type 0 where
  still : Meetings s s
  next : {t u : Rendezvous} → Meetings s t → Meeting t u → Meetings s u
