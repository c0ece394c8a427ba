-- ===== src/LocalObjStore/Channels/Stranded.antt =====
-- Two Gets of go/cmd/localobjstore/main.go for one object: the second replaces the channel in the map,
-- and the first, which receives from the old one, is never reached again.
use babyray.Common.{
  All, All-middle, All-replace, ℕ, ◌+◌, ◌<◌, ◌≤◌, ◌≡◌, ◌≢◌, sym, subst, ap, some-injective, some,
  List, [], ◌∷◌, ◌++◌, ◌==◌, ==_iff, if◌then◌else◌, arith, Bool-cases, inl, inr,
}
use babyray.Common.Dict.{Dict, lookup, insert, lookup-insert}
use babyray.LocalObjStore.Channels.{
  GetPc, asking, receiving, resumed, FoundPc, sending, sent, Rendezvous, Meeting, miss, receive,
  found, meet, Meetings, still, next,
}

-- Nothing sends on the channel, and no entry of the map holds it.
abbrev IsOff : ℕ → FoundPc → Type 0
IsOff channel (sending o callback) = o ≢ some channel
IsOff channel (sent callback) = Unit

pub record IsForgotten (channel : ℕ) (s : Rendezvous) : Type 0 where
  pub old : channel < s.made
  pub unmapped : (uid : ℕ) → lookup uid s.local_object_channels ≢ some channel
  pub unsent : All (IsOff channel) s.founds

-- The Gets that wait on a channel.
abbrev pub waits_on : ℕ → GetPc → ℕ
waits_on channel (asking uid) = 0
waits_on channel (receiving uid c) = if c == channel then 1 else 0
waits_on channel (resumed uid callback) = 0

abbrev pub waiting_on : ℕ → List GetPc → ℕ
waiting_on channel [] = 0
waiting_on channel (p ∷ ps) = waits_on channel p + waiting_on channel ps

waiting_on-replace :
    (channel : ℕ) (before : List GetPc) (p q : GetPc) (after : List GetPc)
    → waits_on channel p ≤ waits_on channel q
    → waiting_on channel (before ++ (p ∷ after)) ≤ waiting_on channel (before ++ (q ∷ after))
waiting_on-replace channel [] p q after le = omega arith
waiting_on-replace channel (x ∷ before) p q after le =
    omega (arith, waiting_on-replace channel before p q after le)

abbrev Stays : ℕ → Rendezvous → Rendezvous → Type 0
Stays channel s t = IsForgotten channel t × (waiting_on channel s.gets ≤ waiting_on channel t.gets)

miss-unmapped :
    (channel made uid v : ℕ) (m : Dict ℕ)
    → channel < made
    → lookup v m ≢ some channel
    → lookup v (insert uid made m) ≢ some channel
miss-unmapped channel made uid v m old unmapped hit =
    let at_v = lookup-insert uid v made m in
    elim (Bool-cases (uid == v)) [
      | inl same ↦
          let eq : made ≡ channel = some-injective _ _ (ground (arith, at_v, hit, same)) in
          omega (arith, eq)
      | inr other ↦ unmapped (ground (arith, at_v, hit, other))
    ]

Meeting-Stays :
    (channel : ℕ) {s t : Rendezvous} → IsForgotten channel s → Meeting s t → Stays channel s t
Meeting-Stays channel {s} {t} h (miss uid e) = subst (Stays channel s) (sym e) (
  record {
    old = omega (arith, h.old);
    unmapped = λ v. miss-unmapped channel s.made uid v s.local_object_channels h.old (h.unmapped v);
    unsent = h.unsent;
  },
  omega arith,
)
Meeting-Stays channel {s} {t} h (receive before after uid c at there e) =
    subst (Stays channel s) (sym e) (
      record { old = h.old; unmapped = h.unmapped; unsent = h.unsent },
      rw at (waiting_on-replace channel before (asking uid) (receiving uid c) after (omega arith)),
    )
Meeting-Stays channel {s} {t} h (found callback e) = subst (Stays channel s) (sym e) (
  record { old = h.old; unmapped = h.unmapped; unsent = (h.unmapped callback.uid, h.unsent) },
  omega arith,
)
Meeting-Stays channel {s} {t} h (meet before after before' after' uid c callback at at' e) =
    let unsent = subst (All (IsOff channel)) at' h.unsent in
    let other = All-middle (IsOff channel) before' (sending (some c) callback) after' unsent in
    subst (Stays channel s) (sym e) (
      record {
        old = h.old;
        unmapped = h.unmapped;
        unsent =
            All-replace (IsOff channel) before' (sending (some c) callback) (sent callback) after'
              unsent tt;
      },
      rw at (
          waiting_on-replace channel before (receiving uid c) (resumed uid callback) after
            elim (Bool-cases (c == channel)) [
              | inl same ↦ absurd (other (ap some ((==_iff c channel).0 same)))
              | inr differ ↦ rw differ (omega arith)
            ]),
    )

-- Where a channel has been replaced in the map and nothing sends on it, no Get that waits on it is
-- ever served: whatever calls of Get and LocationFound follow, at least as many wait on it as before.
pub Meetings-IsForgotten :
    (channel : ℕ) {s t : Rendezvous}
    → IsForgotten channel s
    → Meetings s t
    → IsForgotten channel t × (waiting_on channel s.gets ≤ waiting_on channel t.gets)
Meetings-IsForgotten channel h still = (h, omega arith)
Meetings-IsForgotten channel h (next steps step) =
    let before = Meetings-IsForgotten channel h steps in
    let last = Meeting-Stays channel before.0 step in (last.0, omega (arith, before.1, last.1))
