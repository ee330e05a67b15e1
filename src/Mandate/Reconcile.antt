-- ===== src/Mandate/Reconcile.antt =====
-- `MandateManager::reconcile` of cognitod/src/mandate.rs: the mandates that are due leave the
-- kernel's map and the index, and expire.
use linnix.Prelude.{
  ℕ, ◌-◌, Bool, ◌&&◌, Option, none, some, List, [], ◌∷◌, String, leb, if◌then◌else◌, length,
}
use linnix.Prelude.Keys.{◌==◌, nat_eq, string_eq}
use linnix.Prelude.Assoc.{Assoc, lookup, insert, erase}
use linnix.Prelude.Words.{add64}
use linnix.Protocol.{MandateKey}
use linnix.BpfMap.{BpfHash}
use linnix.Mandate.Types.{expired, is_active, MandateRecord}
use linnix.Mandate.Manager.{MandateManager, map_remove}

module _ {Receipt : Type 0} where
  abbrev pub is_due : ℕ → MandateRecord Receipt → Bool
  is_due now_ns r = is_active r.status && leb r.value.expires_ns now_ns

  -- `to_expire`
  abbrev pub due : ℕ → Assoc String (MandateRecord Receipt) → List (String × MandateKey × ℕ)
  due now_ns [] = []
  due now_ns ((id, r) ∷ rest) =
      if is_due now_ns r
      then (id, r.key, r.value.mandate_seq) ∷ due now_ns rest
      else due now_ns rest

  abbrev pub expire : MandateRecord Receipt → MandateRecord Receipt
  expire r = record r { status = expired }

  abbrev pub expire_at :
      String → Assoc String (MandateRecord Receipt) → Assoc String (MandateRecord Receipt)
  expire_at id mandates = elim (lookup id mandates) [
    | none ↦ mandates
    | some r ↦ insert id (expire r) mandates
  ]

  abbrev pub expire_all :
      List (String × MandateKey × ℕ)
      → Assoc String (MandateRecord Receipt)
      → Assoc String (MandateRecord Receipt)
  expire_all [] mandates = mandates
  expire_all (d ∷ ds) mandates = expire_all ds (expire_at d.0 mandates)

abbrev pub erase_seqs : List (String × MandateKey × ℕ) → Assoc ℕ String → Assoc ℕ String
erase_seqs [] seq_to_id = seq_to_id
erase_seqs (d ∷ ds) seq_to_id = erase_seqs ds (erase d.2 seq_to_id)

module _ (bpf : BpfHash) (Receipt : Type 0) where
  -- A failing removal is only logged.
  abbrev pub remove_keys : List (String × MandateKey × ℕ) → Option bpf.Map → Option bpf.Map
  remove_keys [] kernel_map = kernel_map
  remove_keys (d ∷ ds) kernel_map = remove_keys ds (map_remove bpf Receipt d.1 kernel_map)

  abbrev pub mark_expired :
      List (String × MandateKey × ℕ) → MandateManager bpf Receipt → MandateManager bpf Receipt
  mark_expired to_expire m = record m {
    bpf_mandate_map = remove_keys to_expire m.bpf_mandate_map;
    seq_to_id = erase_seqs to_expire m.seq_to_id;
    mandates = expire_all to_expire m.mandates;
    total_expired = add64 m.total_expired (length to_expire);
    bpf_map_count = m.bpf_map_count - length to_expire;
  }

  -- The returned number is `expired_count`.
  unfoldable pub reconcile : ℕ → MandateManager bpf Receipt → MandateManager bpf Receipt × ℕ
  reconcile now_ns m =
      let to_expire = due now_ns m.mandates in
      if length to_expire == 0 then (m, 0) else (mark_expired to_expire m, length to_expire)
