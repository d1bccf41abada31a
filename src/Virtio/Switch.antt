-- ===== src/Virtio/Switch.antt =====
-- packages/kernel/src/virtio/net.ts, `ethernetNetwork`: a learning Ethernet switch. A port is the
-- number of its `SwitchPort` object, whose flag `closed` stands in the store `closed_ports`. The
-- handlers of the ports are not run: a send says who receives the frame and whether it waits.
pub mod Learning
use distro.Common.{
  ℕ, zero, suc, ◌+◌, ◌%◌, Bool, true, false, not, ◌&&◌, ◌||◌, List, [], ◌∷◌, ◌++◌, Option, none,
  some, ltb, leb, ◌==◌, if◌then◌else◌, length, get_or, take, drop, Result, ok, throw, get_or,
}

abbrev pub header_size : ℕ
header_size = 14

abbrev pub mac_of : List ℕ → List ℕ
mac_of bytes = take 6 bytes

pub data SwitchError : Type 0 where
  network_closed : SwitchError
  port_closed : SwitchError
  short_frame : SwitchError

-- The frame, the ports that receive it in order, and whether the sender awaits the one recipient.
pub record Delivery : Type 0 where
  pub recipients : List ℕ
  pub waits : Bool
  pub frame : List ℕ

pub record EthernetNetwork : Type 0 where
  pub ports : List ℕ
  pub next_port : ℕ
  pub closed_ports : ℕ → Bool
  pub learned : List (List ℕ × ℕ)
  pub closed : Bool

abbrev pub ethernet_network : EthernetNetwork
ethernet_network = record {
  ports = [];
  next_port = 0;
  closed_ports = λ p. false;
  learned = [];
  closed = false;
}

-- Equality of `mac_key`s, which two addresses share just when they have the same bytes.
abbrev pub same_mac : List ℕ → List ℕ → Bool
same_mac [] [] = true
same_mac [] (b ∷ bs) = false
same_mac (a ∷ as_) [] = false
same_mac (a ∷ as_) (b ∷ bs) = (a == b) && same_mac as_ bs

abbrev pub is_multicast : List ℕ → Bool
is_multicast address = get_or address 0 0 % 2 == 1

-- `learned.get`.
abbrev pub get_learned : List (List ℕ × ℕ) → List ℕ → Option ℕ
get_learned [] mac = none
get_learned ((key, port) ∷ entries) mac =
    if same_mac key mac then some port else get_learned entries mac

-- `learned.set`: the entry keeps its place.
abbrev pub set_learned : List (List ℕ × ℕ) → List ℕ → ℕ → List (List ℕ × ℕ)
set_learned [] mac port = (mac, port) ∷ []
set_learned ((key, owner) ∷ entries) mac port =
    let rest = set_learned entries mac port in
    if same_mac key mac then (key, port) ∷ entries else (key, owner) ∷ rest

abbrev pub forget_port : List (List ℕ × ℕ) → ℕ → List (List ℕ × ℕ)
forget_port [] port = []
forget_port ((key, owner) ∷ entries) port =
    let rest = forget_port entries port in if owner == port then rest else (key, owner) ∷ rest

abbrev pub delete_port : List ℕ → ℕ → List ℕ
delete_port [] port = []
delete_port (p ∷ ports) port =
    let rest = delete_port ports port in if p == port then rest else p ∷ rest

-- The flood: every port but the sender, and none that is closed.
abbrev pub flood : (ℕ → Bool) → ℕ → List ℕ → List ℕ
flood closed_ports port [] = []
flood closed_ports port (candidate ∷ ports) =
    let rest = flood closed_ports port ports in
    if not (candidate == port) && not (closed_ports candidate) then candidate ∷ rest else rest

abbrev pub set_flag : (ℕ → Bool) → ℕ → ℕ → Bool
set_flag flags port p = if p == port then true else flags p

abbrev pub close_all : (ℕ → Bool) → List ℕ → ℕ → Bool
close_all flags [] p = flags p
close_all flags (port ∷ ports) p =
    let rest = close_all flags ports p in if p == port then true else rest

unfoldable pub add_port : EthernetNetwork → Result SwitchError (EthernetNetwork × ℕ)
add_port net =
    if net.closed
    then throw network_closed
    else (ok (
      record net { ports = net.ports ++ net.next_port ∷ []; next_port = suc net.next_port },
      net.next_port,
    ))

abbrev pub recipients_of : EthernetNetwork → ℕ → Option ℕ → List ℕ → List ℕ
recipients_of net port none address = flood net.closed_ports port net.ports
recipients_of net port (some destination) address =
    if is_multicast address
    then flood net.closed_ports port net.ports
    else (if (destination == port) || net.closed_ports destination then [] else destination ∷ [])

abbrev pub is_known : Option ℕ → Bool
is_known none = false
is_known (some destination) = true

-- The sender's address is learned, and the frame goes to its recipients.
abbrev pub deliver : EthernetNetwork → ℕ → List ℕ → EthernetNetwork × Delivery
deliver net port frame =
    let address = mac_of frame in
    let learned = set_learned net.learned (mac_of (drop 6 frame)) port in
    let destination = get_learned learned address in
    let recipients = recipients_of net port destination address in
    (
      record net { learned = learned },
      record {
        recipients = recipients;
        waits = is_known destination && (length recipients == 1);
        frame = frame;
      },
    )

unfoldable pub send : EthernetNetwork → ℕ → List ℕ → Result SwitchError (EthernetNetwork × Delivery)
send net port frame =
    if net.closed
    then ok (net, record { recipients = []; waits = false; frame = frame })
    else if net.closed_ports port
    then throw port_closed
    else if ltb (length frame) header_size
    then throw short_frame
    else ok (deliver net port frame)

unfoldable pub close_port : EthernetNetwork → ℕ → EthernetNetwork
close_port net port = if net.closed_ports port then net else record net {
  closed_ports = set_flag net.closed_ports port;
  ports = delete_port net.ports port;
  learned = forget_port net.learned port;
}

unfoldable pub close : EthernetNetwork → EthernetNetwork
close net = if net.closed then net else record net {
  closed = true;
  closed_ports = close_all net.closed_ports net.ports;
  ports = [];
  learned = [];
}
