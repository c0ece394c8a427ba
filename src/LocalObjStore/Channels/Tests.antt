-- ===== src/LocalObjStore/Channels/Tests.antt =====
-- Two Gets for two objects, one at its receive and one before it.
use babyray.Common.{refl, arith, [], ◌∷◌}
use babyray.Common.Dict.{lookup, insert}
use babyray.Wire.{LocationFoundCallback}
use babyray.LocalObjStore.Channels.{asking, receiving, Rendezvous, miss, receive, no_calls}
use babyray.LocalObjStore.Channels.Served.{
  ServedMeetings, start, step, IsServed, ServedMeetings-resumed,
}

abbrev two_objects : Rendezvous
two_objects = record {
  local_object_channels = (7, 0) ∷ (8, 1) ∷ [];
  made = 2;
  gets = asking 8 ∷ receiving 7 0 ∷ [];
  founds = [];
}

two_objects-reached : ServedMeetings no_calls two_objects
unfolding insert lookup
two_objects-reached =
    step
      (step (step start (miss 7 refl) (λ u. ground arith)) (receive [] [] 7 0 refl refl refl)
        (λ u. ground arith))
      (miss 8 refl) (λ u. ground arith)

abbrev found_eight : LocationFoundCallback
found_eight = record { uid = 8; location = 4; address = []; port = 0 }

ServedMeetings-resumed_example : IsServed two_objects [] 8 found_eight (receiving 7 0 ∷ [])
ServedMeetings-resumed_example =
    ServedMeetings-resumed [] (receiving 7 0 ∷ []) (asking 8) found_eight two_objects-reached refl
      refl
