-- ===== src/Gateway/Overlap.antt =====
-- crates/wiremesh-gateway/src/rotation.rs: the write-back into an overlap that may have been replaced
-- while its reader waited.
use wire_mesh.Common.{
  ℕ, String, ◌≡◌, ◌↔◌, Bool, ◌&&◌, Option, none, some, arith, ◌==◌, if◌then◌else◌, str_eq, eq_iff,
}

pub record OverlapIdentity : Type 0 where
  pub pending_epoch : ℕ
  pub new_tun : String

pub data WriteBack : Type 0 where
  apply replaced vanished : WriteBack

unfoldable pub same_overlap : OverlapIdentity → OverlapIdentity → Bool
same_overlap a b = a.pending_epoch == b.pending_epoch && str_eq a.new_tun b.new_tun

unfoldable pub overlap_write_back : OverlapIdentity → Option OverlapIdentity → WriteBack
unfolding same_overlap
overlap_write_back taken none = vanished
overlap_write_back taken (some cur) = if same_overlap cur taken then apply else replaced

-- A write-back is applied exactly where the entry is still the overlap that it was computed for.
pub overlap_write_back-apply :
    (taken : OverlapIdentity) (current : Option OverlapIdentity)
    → (overlap_write_back taken current ≡ apply) ↔ (current ≡ some taken)
unfolding overlap_write_back same_overlap
overlap_write_back-apply taken none = (λ h. cc, λ h. cc)
overlap_write_back-apply taken (some cur) = (
  λ h. ground (arith, eq_iff cur.new_tun taken.new_tun),
  λ h. ground (arith, eq_iff cur.new_tun taken.new_tun),
)
