-- ===== src/Virtio/Switch/Learning.antt =====
-- packages/kernel/src/virtio/net.ts, `ethernetNetwork`: who receives a frame, and what the table of
-- learned addresses keeps.
use distro.Common.{
  if_false, ℕ, ◌≤◌, ◌≡◌, ◌≢◌, refl, ap, ◌∙◌, Bool, true, false, not, ◌&&◌, ◌||◌, List, [], ◌∷◌,
  Option, none, some, ltb, ◌==◌, if◌then◌else◌, length, drop, Result, ok, throw, arith, Bool-cases,
  inl, inr, All, ==_refl, le→ltb,
}
use distro.Virtio.Switch.{
  EthernetNetwork, SwitchError, port_closed, short_frame, Delivery, set_learned, get_learned,
  forget_port, flood, set_flag, send, close_port, same_mac, is_multicast, mac_of, header_size,
  recipients_of, is_known, deliver,
}

same_mac_refl : (m : List ℕ) → same_mac m m ≡ true
same_mac_refl [] = refl
same_mac_refl (a ∷ m) = let rest = same_mac_refl m in ground arith

get_learned-set_learned :
    (entries : List (List ℕ × ℕ)) (mac : List ℕ) (port : ℕ)
    → get_learned (set_learned entries mac port) mac ≡ some port
get_learned-set_learned [] mac port = rw (same_mac_refl mac) refl
get_learned-set_learned ((key, owner) ∷ entries) mac port = elim (Bool-cases (same_mac key mac)) [
  | inl e ↦ rw (e, e) refl
  | inr e ↦ rw (e, e) (get_learned-set_learned entries mac port)
]

flood-All :
    (flags : ℕ → Bool) (port : ℕ) (ports : List ℕ)
    → All (λ p. (p ≢ port) × (flags p ≡ false)) (flood flags port ports)
flood-All flags port [] = tt
flood-All flags port (c ∷ ports) = elim (Bool-cases (not (c == port) && not (flags c))) [
  | inl e ↦ rw e ((ground arith, ground arith), flood-All flags port ports)
  | inr e ↦ rw e (flood-All flags port ports)
]

recipients_of-All :
    (net : EthernetNetwork) (port : ℕ) (o : Option ℕ) (address : List ℕ)
    → All (λ p. (p ≢ port) × (net.closed_ports p ≡ false)) (recipients_of net port o address)
recipients_of-All net port none address = flood-All net.closed_ports port net.ports
recipients_of-All net port (some d) address = elim (Bool-cases (is_multicast address)) [
  | inl e ↦ rw e (flood-All net.closed_ports port net.ports)
  | inr e ↦ rw e (elim (Bool-cases ((d == port) || net.closed_ports d)) [
    | inl t ↦ rw t tt
    | inr t ↦ rw t ((ground arith, ground arith), tt)
  ])
]

-- A send that throws, or whose recipients are other ports, none of them closed.
pub data SendsTo (net : EthernetNetwork) (port : ℕ)
    : Result SwitchError (EthernetNetwork × Delivery) → Type 0 where
  refused : (e : SwitchError) → SendsTo net port (throw e)
  delivers :
      (after : EthernetNetwork) (d : Delivery)
      → All (λ p. (p ≢ port) × (net.closed_ports p ≡ false)) d.recipients
      → SendsTo net port (ok (after, d))

if-SendsTo :
    (net : EthernetNetwork) (port : ℕ) (b : Bool)
    (x y : Result SwitchError (EthernetNetwork × Delivery))
    → SendsTo net port x
    → SendsTo net port y
    → SendsTo net port (if b then x else y)
if-SendsTo net port true x y p q = p
if-SendsTo net port false x y p q = q

-- A frame that is sent goes to no closed port and not back to its sender, whatever has been learned.
pub send-SendsTo :
    (net : EthernetNetwork) (port : ℕ) (frame : List ℕ) → SendsTo net port (send net port frame)
unfolding send
send-SendsTo net port frame = if-SendsTo net port net.closed _ _ (delivers _ _ tt) (
    if-SendsTo net port (net.closed_ports port) _ _ (refused port_closed) (
      if-SendsTo net port (ltb (length frame) header_size) _ _ (refused short_frame)
        (delivers _ _ (recipients_of-All net port _ (mac_of frame)))))

same_mac_eq : (m n : List ℕ) → same_mac m n ≡ true → m ≡ n
same_mac_eq [] [] e = refl
same_mac_eq [] (b ∷ bs) e = (let no : ⊥ = cc in absurd no)
same_mac_eq (a ∷ m) [] e = (let no : ⊥ = cc in absurd no)
same_mac_eq (a ∷ m) (b ∷ n) e =
    let first : a ≡ b = ground arith in let rest : m ≡ n = same_mac_eq m n (ground arith) in cc

-- Learning one address leaves the others as they were.
get_learned-set_learned_other :
    (entries : List (List ℕ × ℕ)) (mac other : List ℕ) (port : ℕ)
    → same_mac mac other ≡ false
    → get_learned (set_learned entries mac port) other ≡ get_learned entries other
get_learned-set_learned_other [] mac other port e = rw e refl
get_learned-set_learned_other ((key, owner) ∷ entries) mac other port e =
    elim (Bool-cases (same_mac key mac)) [
      | inl k ↦
          let key_is : key ≡ mac = same_mac_eq key mac k in
          let differs : same_mac key other ≡ false = rw key_is e in rw k (rw differs refl)
      | inr k ↦ rw k (
          ap (λ r. if same_mac key other then some owner else r)
            (get_learned-set_learned_other entries mac other port e))
    ]

get_learned-forget_port :
    (entries : List (List ℕ × ℕ)) (port : ℕ) (mac : List ℕ)
    → get_learned (forget_port entries port) mac ≢ some port
get_learned-forget_port [] port mac = λ e. (let no : ⊥ = cc in no)
get_learned-forget_port ((key, owner) ∷ entries) port mac = elim (Bool-cases (owner == port)) [
  | inl o ↦ rw o (get_learned-forget_port entries port mac)
  | inr o ↦ rw o (elim (Bool-cases (same_mac key mac)) [
    | inl k ↦ rw k (λ e. (let same_port : owner ≡ port = cc in let no : ⊥ = ground arith in no))
    | inr k ↦ rw k (get_learned-forget_port entries port mac)
  ])
]

set_flag_same : (flags : ℕ → Bool) (port : ℕ) → set_flag flags port port ≡ true
set_flag_same flags port = rw (==_refl port) refl

-- A port that is closed is marked so, and no address leads to it any more.
pub close_port-forgets :
    (net : EthernetNetwork) (port : ℕ) (mac : List ℕ)
    → net.closed_ports port ≡ false
    → ((close_port net port).closed_ports port ≡ true)
      × (get_learned (close_port net port).learned mac ≢ some port)
unfolding close_port
close_port-forgets net port mac c =
    rw c (set_flag_same net.closed_ports port, get_learned-forget_port net.learned port mac)

send-open :
    (net : EthernetNetwork) (port : ℕ) (frame : List ℕ)
    → net.closed ≡ false
    → net.closed_ports port ≡ false
    → header_size ≤ length frame
    → send net port frame ≡ ok (deliver net port frame)
unfolding send
send-open net port frame c p l =
    if_false net.closed _ _ c
    ∙ (if_false (net.closed_ports port) _ _ p
        ∙ if_false (ltb (length frame) header_size) _ _ (le→ltb (length frame) header_size l))

abbrev pub delivered : List ℕ → Bool → List ℕ → Delivery
delivered recipients waits frame = record { recipients = recipients; waits = waits; frame = frame }

unicast :
    (net : EthernetNetwork) (port other : ℕ) (o : Option ℕ) (address frame : List ℕ)
    → o ≡ some port
    → is_multicast address ≡ false
    → ((port == other) || net.closed_ports port) ≡ false
    → delivered
        (recipients_of net other o address)
        (is_known o && (length (recipients_of net other o address) == 1))
        frame
      ≡ delivered (port ∷ []) true frame
unicast net port other o address frame known single live = rw known (rw single (rw live refl))

-- On an open network, once an open port has sent a frame, a reply by another open port to the frame's
-- source goes to that port alone, and waits for it: if that address is not multicast, and is not
-- also the reply's source.
pub send-learns :
    (net : EthernetNetwork) (port other : ℕ) (frame reply : List ℕ)
    → net.closed ≡ false
    → net.closed_ports port ≡ false
    → net.closed_ports other ≡ false
    → port ≢ other
    → header_size ≤ length frame
    → header_size ≤ length reply
    → mac_of reply ≡ mac_of (drop 6 frame)
    → is_multicast (mac_of reply) ≡ false
    → same_mac (mac_of (drop 6 reply)) (mac_of reply) ≡ false
    → (after : EthernetNetwork) × (first : Delivery) × (send net port frame ≡ ok (after, first))
      × ((final : EthernetNetwork) × (send after other reply
            ≡ ok (final, delivered (port ∷ []) true reply)))
send-learns net port other frame reply c p o apart l1 l2 m u s =
    let sent = deliver net port frame in
    let replied = deliver sent.0 other reply in
    let destination =
      get_learned (set_learned sent.0.learned (mac_of (drop 6 reply)) other) (mac_of reply) in
    let known : destination ≡ some port =
      get_learned-set_learned_other sent.0.learned (mac_of (drop 6 reply)) (mac_of reply) other s
      ∙ (ap (λ a. get_learned sent.0.learned a) m
          ∙ get_learned-set_learned net.learned (mac_of (drop 6 frame)) port) in
    let live : ((port == other) || net.closed_ports port) ≡ false = ground arith in
    (
      sent.0,
      sent.1,
      send-open net port frame c p l1,
      (
        replied.0,
        send-open sent.0 other reply c o l2
            ∙ ap (λ d. ok (replied.0, d))
                (unicast sent.0 port other destination (mac_of reply) reply known u live),
      ),
    )
