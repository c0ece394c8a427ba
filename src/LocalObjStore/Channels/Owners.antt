-- ===== src/LocalObjStore/Channels/Owners.antt =====
-- A Get of go/cmd/localobjstore/main.go goes on with a callback for its own object.
use babyray.Common.{
  All, All-weaken, All-middle, All-replace, ℕ, ◌+◌, ◌<◌, ◌≡◌, refl, sym, subst, ◌∙◌, some-injective,
  Option, none, some, List, ◌∷◌, ◌++◌, ◌==◌, ==_iff, if◌then◌else◌, arith, Bool-cases, inl, inr,
}
use babyray.Common.Dict.{lookup, insert, lookup-insert}
use babyray.Wire.{LocationFoundCallback}
use babyray.LocalObjStore.Channels.{
  GetPc, asking, receiving, resumed, FoundPc, sending, sent, Rendezvous, Meeting, miss, receive,
  found, meet, Meetings, still, next, no_calls,
}

-- Each channel was made for one object, its owner.
abbrev IsGetOwned : (ℕ → ℕ) → ℕ → GetPc → Type 0
IsGetOwned owner made (asking uid) = Unit
IsGetOwned owner made (receiving uid channel) = (owner channel ≡ uid) × (channel < made)
IsGetOwned owner made (resumed uid callback) = callback.uid ≡ uid

abbrev IsFoundOwned : (ℕ → ℕ) → ℕ → FoundPc → Type 0
IsFoundOwned owner made (sending none callback) = Unit
IsFoundOwned owner made (sending (some channel) callback) =
    (owner channel ≡ callback.uid) × (channel < made)
IsFoundOwned owner made (sent callback) = Unit

record IsOwned (owner : ℕ → ℕ) (s : Rendezvous) : Type 0 where
  channels :
      (uid channel : ℕ)
      → lookup uid s.local_object_channels ≡ some channel
      → (owner channel ≡ uid) × (channel < s.made)
  gets : All (IsGetOwned owner s.made) s.gets
  founds : All (IsFoundOwned owner s.made) s.founds

with_owner : (ℕ → ℕ) → ℕ → ℕ → ℕ → ℕ
with_owner owner made uid channel = if channel == made then uid else owner channel

module _ (owner : ℕ → ℕ) (made uid : ℕ) where
  IsGetOwned-with_owner :
      (p : GetPc) → IsGetOwned owner made p → IsGetOwned (with_owner owner made uid) (made + 1) p
  unfolding with_owner
  IsGetOwned-with_owner (asking u) h = tt
  IsGetOwned-with_owner (receiving u c) h = (ground (arith, h.0, h.1), omega (arith, h.1))
  IsGetOwned-with_owner (resumed u callback) h = h

  IsFoundOwned-with_owner :
      (p : FoundPc)
      → IsFoundOwned owner made p
      → IsFoundOwned (with_owner owner made uid) (made + 1) p
  unfolding with_owner
  IsFoundOwned-with_owner (sending none callback) h = tt
  IsFoundOwned-with_owner (sending (some c) callback) h =
      (ground (arith, h.0, h.1), omega (arith, h.1))
  IsFoundOwned-with_owner (sent callback) h = tt

found_channel-IsFoundOwned :
    (owner : ℕ → ℕ) (s : Rendezvous) (callback : LocationFoundCallback) (o : Option ℕ)
    → IsOwned owner s
    → lookup callback.uid s.local_object_channels ≡ o
    → IsFoundOwned owner s.made (sending o callback)
found_channel-IsFoundOwned owner s callback none h e = tt
found_channel-IsFoundOwned owner s callback (some c) h e = h.channels callback.uid c e

miss-channels :
    (owner : ℕ → ℕ) (s : Rendezvous) (uid : ℕ)
    → IsOwned owner s
    → (v channel : ℕ) → lookup v (insert uid s.made s.local_object_channels) ≡ some channel
    → (with_owner owner s.made uid channel ≡ v) × (channel < s.made + 1)
unfolding with_owner
miss-channels owner s uid h v channel hit =
    let at_v = lookup-insert uid v s.made s.local_object_channels in
    elim (Bool-cases (uid == v)) [
      | inl same ↦
          let eq : s.made ≡ channel = some-injective _ _ (ground (arith, at_v, hit, same)) in
          (ground (arith, eq, ==_iff uid v, same), omega (arith, eq))
      | inr other ↦
          let old = h.channels v channel (ground (arith, at_v, hit, other)) in
          (ground (arith, old.0, old.1), omega (arith, old.1))
    ]

Meeting-IsOwned :
    {s t : Rendezvous} (owner : ℕ → ℕ)
    → IsOwned owner s
    → Meeting s t
    → (owner' : ℕ → ℕ) × IsOwned owner' t
unfolding with_owner
Meeting-IsOwned {s} {t} owner h (miss uid e) =
    let owner' = with_owner owner s.made uid in
    (
      owner',
      subst (IsOwned owner') (sym e) (record {
        channels = miss-channels owner s uid h;
        gets = (
          tt,
          All-weaken (IsGetOwned owner s.made) _ (IsGetOwned-with_owner owner s.made uid) s.gets
              h.gets,
        );
        founds =
            All-weaken (IsFoundOwned owner s.made) _ (IsFoundOwned-with_owner owner s.made uid)
              s.founds h.founds;
      }),
    )
Meeting-IsOwned {s} {t} owner h (receive before after uid channel at there e) = (
  owner,
  subst (IsOwned owner) (sym e) (record {
    channels = h.channels;
    gets =
        All-replace (IsGetOwned owner s.made) before (asking uid) (receiving uid channel) after
          (subst (All (IsGetOwned owner s.made)) at h.gets) (h.channels uid channel there);
    founds = h.founds;
  }),
)
Meeting-IsOwned {s} {t} owner h (found callback e) = (
  owner,
  subst (IsOwned owner) (sym e) (record {
    channels = h.channels;
    gets = h.gets;
    founds = (found_channel-IsFoundOwned owner s callback _ h refl, h.founds);
  }),
)
Meeting-IsOwned {s} {t} owner h (meet before after before' after' uid channel callback at at' e) =
    let gets = subst (All (IsGetOwned owner s.made)) at h.gets in
    let founds = subst (All (IsFoundOwned owner s.made)) at' h.founds in
    let mine = All-middle (IsGetOwned owner s.made) before (receiving uid channel) after gets in
    let theirs =
      All-middle (IsFoundOwned owner s.made) before' (sending (some channel) callback) after'
        founds in
    (
      owner,
      subst (IsOwned owner) (sym e) (record {
        channels = h.channels;
        gets =
            All-replace (IsGetOwned owner s.made) before (receiving uid channel)
              (resumed uid callback) after gets (sym theirs.0 ∙ mine.0);
        founds =
            All-replace (IsFoundOwned owner s.made) before' (sending (some channel) callback)
              (sent callback) after' founds tt;
      }),
    )

Meetings-IsOwned : {s : Rendezvous} → Meetings no_calls s → (owner : ℕ → ℕ) × IsOwned owner s
unfolding lookup
Meetings-IsOwned still =
    (λ c. 0, record { channels = λ v c hit. absurd (ground (arith, hit)); gets = tt; founds = tt })
Meetings-IsOwned (next steps step) =
    let before = Meetings-IsOwned steps in Meeting-IsOwned before.0 before.1 step

-- However the calls of Get and LocationFound interleave, a Get that goes on got a callback for the
-- object that it was asked for.
pub Meetings-resumed :
    {s : Rendezvous} (before after : List GetPc) (uid : ℕ) (callback : LocationFoundCallback)
    → Meetings no_calls s
    → s.gets ≡ before ++ (resumed uid callback ∷ after)
    → callback.uid ≡ uid
Meetings-resumed {s} before after uid callback steps at =
    let owned = Meetings-IsOwned steps in
    All-middle (IsGetOwned owned.0 s.made) before (resumed uid callback) after
      (subst (All (IsGetOwned owned.0 s.made)) at owned.1.gets)
