-- ===== src/Reassembly/Segments/Key.antt =====
-- The keys of the TCP reassembler: `TransportProtocol` of capture-agent/src/parse.rs, `FlowKey` of
-- capture-agent/src/flow.rs and `TcpStreamKey` of capture-agent/src/reassembly.rs.
use Prim.Native.String.{String}
use network_monitor.Base.{ℕ, ◌≡◌, ◌↔◌, Bool, true, false, not, ◌&&◌, arith, ◌==◌, Eq, string_eq}

pub data TransportProtocol : Type 0 where
  tcp udp icmp other : TransportProtocol

pub record FlowKey : Type 0 where
  pub protocol : TransportProtocol
  pub local_addr : String
  pub local_port : ℕ
  pub remote_addr : String
  pub remote_port : ℕ

pub record TcpStreamKey : Type 0 where
  pub flow : FlowKey
  pub from_local : Bool

unfoldable pub same_protocol : TransportProtocol → TransportProtocol → Bool
same_protocol tcp tcp = true
same_protocol udp udp = true
same_protocol icmp icmp = true
same_protocol other other = true
same_protocol _ _ = false

same_protocol_iff : (p q : TransportProtocol) → (same_protocol p q ≡ true) ↔ (p ≡ q)
unfolding same_protocol
same_protocol_iff p q = ground arith

pub same_side : Bool → Bool → Bool
same_side true b = b
same_side false b = not b

-- The derived `==`.
pub same_stream_key : TcpStreamKey → TcpStreamKey → Bool
unfolding same_protocol same_side
same_stream_key a b =
    same_protocol a.flow.protocol b.flow.protocol
    && string_eq.beq a.flow.local_addr b.flow.local_addr
    && a.flow.local_port == b.flow.local_port
    && string_eq.beq a.flow.remote_addr b.flow.remote_addr
    && a.flow.remote_port == b.flow.remote_port
    && same_side a.from_local b.from_local

pub same_stream_key_iff : (a b : TcpStreamKey) → (same_stream_key a b ≡ true) ↔ (a ≡ b)
unfolding same_stream_key
same_stream_key_iff a b = ground (
  arith,
  string_eq.beq_iff a.flow.local_addr b.flow.local_addr,
  string_eq.beq_iff a.flow.remote_addr b.flow.remote_addr,
)

instance abbrev pub stream_key_eq : Eq TcpStreamKey
stream_key_eq = record { beq = same_stream_key; beq_iff = same_stream_key_iff }
