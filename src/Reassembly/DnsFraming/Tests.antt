-- ===== src/Reassembly/DnsFraming/Tests.antt =====
-- Runs of the DNS-over-TCP framing of capture-agent/src/reassembly.rs.
use network_monitor.Base.{
  inr, ℕ, ◌≡◌, refl, true, false, none, some, List, [], ◌∷◌, ◌++◌, arith, replicate, string_eq,
}
use network_monitor.Reassembly.Segments.Key.{TcpStreamKey, tcp}
use network_monitor.Reassembly.DnsFraming.Walk.{dns_tcp_walk, walk_from}
use network_monitor.Reassembly.DnsFraming.Framed.{framed, dns_tcp_walk-framed}

abbrev message : List ℕ
message = replicate 12 0

abbrev stream_key : TcpStreamKey
stream_key = record {
  flow = record {
    protocol = tcp;
    local_addr = "10.0.0.1";
    local_port = 40000;
    remote_addr = "10.0.0.2";
    remote_port = 53;
  };
  from_local = false;
}

-- A message, then one byte of the next one's prefix, across the wrap of sequence numbers.
walk_pending :
    dns_tcp_walk (framed (message ∷ []) ++ (0 ∷ [])) 4294967290 none false false ≡ some (9, some 0)
unfolding dns_tcp_walk walk_from
walk_pending = refl

-- A response, with the first byte of its length carried over.
abbrev response : List ℕ
response = 0 ∷ 0 ∷ 128 ∷ replicate 9 0

dns_tcp_walk-framed_example :
    dns_tcp_walk (12 ∷ (response ++ framed (message ∷ []))) 4294967290 (some 0) true false
    ≡ some (22, none)
dns_tcp_walk-framed_example =
    dns_tcp_walk-framed (response ∷ message ∷ []) (some 0)
      (12 ∷ (response ++ framed (message ∷ []))) 4294967290 true false
      (omega arith, omega arith, (omega arith, omega arith, tt)) refl (inr refl)
