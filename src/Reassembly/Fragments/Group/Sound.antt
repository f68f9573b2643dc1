-- ===== src/Reassembly/Fragments/Group/Sound.antt =====
-- What a fragment keeps of a group.
use network_monitor.Base.{
  ℕ, zero, suc, ◌+◌, ◌^◌, ◌≤◌, ◌<◌, ◌≡◌, refl, Bool, false, [], arith, length, drop, u64_max,
  saturating_add, string_eq,
}
use network_monitor.Reassembly.Status.{max_fragment_group_bytes}
use network_monitor.Reassembly.Coverage.{run_length}
use network_monitor.Reassembly.Coverage.Prefix.{contiguous_len_from-run_length}
use network_monitor.Reassembly.Buffer.{Allocator, IsSound, write_into}
use network_monitor.Reassembly.Buffer.Sound.{
  empty_buffer-IsSound, accounted_bytes_lem, write_into-IsSound, run_length-write_into,
}
use network_monitor.Reassembly.Fragments.Group.{
  Ipv4Fragment, FragmentGroup, new, accounted_bytes, record_fragment, conflicts,
}
use network_monitor.Reassembly.Buffer

-- The buffer is sound, and the recorded prefix is the longest run of bytes held from offset 0.
pub record IsGroup (g : FragmentGroup) : Type 0 where
  pub sound : IsSound max_fragment_group_bytes g.buffer
  pub contiguous : g.prefix_len ≡ run_length g.buffer.filled

-- The widths of the fields that a fragment comes with.
pub record IsFragment (f : Ipv4Fragment) : Type 0 where
  pub offset_u32 : f.offset_bytes < 2 ^ 32
  pub payload_u32 : length f.payload < 2 ^ 32

pub new-IsGroup : (now_ms : ℕ) → IsGroup (new now_ms)
unfolding new
new-IsGroup now_ms = record {
  sound = empty_buffer-IsSound max_fragment_group_bytes;
  contiguous = refl;
}

pub accounted_bytes-le : (g : FragmentGroup) → IsGroup g → accounted_bytes g ≤ 2 ^ 33
unfolding accounted_bytes
accounted_bytes-le g v = (accounted_bytes_lem v.sound).1

module _ (alloc : Allocator) where
  pub record_fragment-IsGroup :
      (g : FragmentGroup) (f : Ipv4Fragment) (declared : ℕ)
      → IsGroup g
      → IsFragment f
      → IsGroup (record_fragment alloc g f declared).0
  unfolding record_fragment
  record_fragment-IsGroup g f declared v w =
      let fits : f.offset_bytes + length f.payload ≤ u64_max = omega arith in
      record {
        sound =
            write_into-IsSound alloc g.buffer f.offset_bytes f.payload max_fragment_group_bytes
              (omega arith) fits v.sound;
        contiguous = contiguous_len_from-run_length _ g.prefix_len (
            rw v.contiguous (
              run_length-write_into alloc g.buffer f.offset_bytes f.payload max_fragment_group_bytes
                fits v.sound.paired));
      }

pub accounted_bytes-new : (now_ms : ℕ) → accounted_bytes (new now_ms) ≡ 0
unfolding new accounted_bytes
accounted_bytes-new now_ms = unfold Buffer.accounted_bytes in refl

pub accounted_bytes-seen :
    (g : FragmentGroup) (now_ms : ℕ)
    → accounted_bytes (record g { last_seen_ms = now_ms }) ≡ accounted_bytes g
unfolding accounted_bytes
accounted_bytes-seen g now_ms = refl

-- The first fragment of a group meets no end to conflict with.
pub conflicts-new :
    (now_ms : ℕ) (f : Ipv4Fragment) (declared : ℕ) → conflicts (new now_ms) f declared ≡ false
unfolding conflicts new
conflicts-new now_ms f declared = ground (arith, drop-nil (saturating_add f.offset_bytes declared))
  where
    drop-nil : (n : ℕ) → drop {A = Bool} n [] ≡ []
    drop-nil zero = refl
    drop-nil (suc n) = refl
