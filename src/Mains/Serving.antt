-- ===== src/Mains/Serving.antt =====
-- What it means that a process under go/cmd serves as the service that it is.
use babyray.Common.{◌≡◌, ◌⊎◌, err, refl, Option, none, some, List, [], ◌∷◌, Outcome}
use babyray.Common.Text.{Text}
use babyray.Common.Integers.{ℤ}
use babyray.Config.{Config}
use babyray.Config.Wiring.{Service, listen_address}
use babyray.Config.Address.{reach}
use babyray.Config.Reach.{runs_on}
use babyray.ObjTable.Startup.{panicking, flush_timer}
use babyray.Mains.{Boot, serving, exited, crashed, Network, listening, create_grpc_client}

module _ {F : Type 0} (cfg : Config F) where
  -- The dialled addresses lead, one by one, to these services.
  abbrev pub LeadTo : ℤ → List Text → List Service → Type 0
  LeadTo here [] [] = Unit
  LeadTo here [] (s ∷ ss) = ⊥
  LeadTo here (t ∷ ts) [] = ⊥
  LeadTo here (t ∷ ts) (s ∷ ss) =
      (reach cfg.dns.node_prefix here t ≡ some (runs_on cfg s, listen_address cfg s))
      × LeadTo here ts ss

  -- A process that serves is the service: it listens at its address, what it has dialled leads to the
  -- services that it is a client of, and its state is as described; one that does not has a fault.
  abbrev pub IsServing :
      {A : Type 0} → Type 0 → Service → List Service → (A → Type 0) → Boot A → Type 0
  IsServing Fault service servers P (serving address dialled s) =
      (address ≡ listen_address cfg service) × LeadTo (runs_on cfg service) dialled servers × P s
  IsServing Fault service servers P exited = Fault
  IsServing Fault service servers P crashed = Fault

module _ {F : Type 0} (cfg : Config F) {A : Type 0} (Fault : Type 0) (service : Service)
    (servers : List Service) (P : A → Type 0) where
  pub listening-IsServing :
      {E : Type 0} (o : Option E) (b : Boot A)
      → ((e : E) → o ≡ some e → Fault)
      → IsServing cfg Fault service servers P b
      → IsServing cfg Fault service servers P (listening o b)
  unfolding listening
  listening-IsServing none b fault h = h
  listening-IsServing (some e) b fault h = fault e refl

  pub create_grpc_client-IsServing :
      {E : Type 0} (o : Option E) (b : Boot A)
      → ((e : E) → o ≡ some e → Fault)
      → IsServing cfg Fault service servers P b
      → IsServing cfg Fault service servers P (create_grpc_client o b)
  unfolding create_grpc_client
  create_grpc_client-IsServing none b fault h = h
  create_grpc_client-IsServing (some e) b fault h = fault e refl

-- An address at which listening or dialling fails.
abbrev pub NetFault : {E : Type 0} → Network E → Type 0
NetFault {E} net = (a : Text) × (e : E) × ((net.listen a ≡ some e) ⊎ (net.dial a ≡ some e))

-- The object table also does not start without its database's file, or with a bad flush interval.
abbrev pub TableFault : {F E D : Type 0} → Config F → Network E → Outcome E D → Type 0
TableFault {F} {E} cfg net database =
    NetFault net
    ⊎ (((e : E) × (database ≡ err e)) ⊎ (flush_timer cfg.gcs.flush_interval_sec ≡ panicking))
