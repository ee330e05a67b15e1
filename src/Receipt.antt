-- ===== src/Receipt.antt =====
-- cognitod/src/receipt.rs: the receipt of an execution, its two signatures and their verification. The
-- packages that sign, hash and write JSON are parameters; a text that they produce is its bytes.
pub mod Crates
pub mod Encoding
pub mod Json
pub mod Identity
pub mod Signing
pub mod RoundTrip
pub mod Binding
pub mod Samples
mod Tests
use linnix.Prelude.{ℕ, ◌-◌, min, Option, none, some, List, [], ◌∷◌, ◌++◌, String, length, take}
use linnix.Prelude.Bytes.{strip_prefix}
use linnix.Receipt.Crates.{Bytes, Packages}
use linnix.Receipt.Encoding.{ℤ, zeros, word, exit_code_word}

pub record AttestationDetails : Type 0 where
  pub kernel_seq : Option ℕ
  pub kernel_boot_id : String
  pub sequencer_ring_size : Option ℕ
  pub lsm_hook : String
  pub enforcement_mode : String

pub record DomainSeparator : Type 0 where
  pub name : String
  pub version : String
  pub chain_id : ℕ
  pub verifying_contract : String
  pub salt : String

-- `DomainSeparator::default`, with what `read_boot_id` returns.
abbrev pub or_unknown : Option String → String
or_unknown none = "unknown"
or_unknown (some boot_id) = boot_id

abbrev pub default_domain : Option String → DomainSeparator
default_domain boot_id = record {
  name = "Linnix-Claw";
  version = "0.1.0";
  chain_id = 8453;
  verifying_contract = "0x0000000000000000000000000000000000000000";
  salt = or_unknown boot_id;
}

pub record ExecutionDetails (Percent : Type 0) : Type 0 where
  pub pid : ℕ
  pub ppid : Option ℕ
  pub binary : Bytes
  pub args_hash : String
  pub exit_code : ℤ
  pub started_at_ns : Option ℕ
  pub finished_at_ns : Option ℕ
  pub duration_ms : ℕ
  pub cpu_pct : Option Percent
  pub mem_pct : Option Percent

-- `UnsignedReceipt`
pub record UnsignedReceipt (Percent : Type 0) : Type 0 where
  pub version : String
  pub mandate_id : String
  pub task_id : Option String
  pub agent_did : String
  pub execution : ExecutionDetails Percent
  pub attestation : AttestationDetails
  pub domain : DomainSeparator

pub record ExecutionReceipt (Percent : Type 0) : Type 0 where
  pub version : String
  pub mandate_id : String
  pub task_id : Option String
  pub agent_did : String
  pub execution : ExecutionDetails Percent
  pub attestation : AttestationDetails
  pub domain : DomainSeparator
  pub signature : Bytes
  pub secp256k1_signature : Bytes

pub record ReceiptBuilder (Percent : Type 0) : Type 0 where
  pub mandate_id : String
  pub task_id : Option String
  pub execution : ExecutionDetails Percent
  pub attestation : AttestationDetails
  pub domain : DomainSeparator

module _ {Percent : Type 0} where
  -- `ReceiptBuilder::new`
  abbrev pub new_builder :
      Option String → String → ExecutionDetails Percent → ReceiptBuilder Percent
  new_builder boot_id mandate_id execution = record {
    mandate_id = mandate_id;
    task_id = none;
    execution = execution;
    attestation = record {
      kernel_seq = none;
      kernel_boot_id = or_unknown boot_id;
      sequencer_ring_size = none;
      lsm_hook = "bprm_check_security";
      enforcement_mode = "monitor";
    };
    domain = record (default_domain boot_id) { salt = or_unknown boot_id };
  }

  abbrev pub task_id : String → ReceiptBuilder Percent → ReceiptBuilder Percent
  task_id id b = record b { task_id = some id }

  abbrev pub kernel_seq : ℕ → ReceiptBuilder Percent → ReceiptBuilder Percent
  kernel_seq seq b = record b { attestation = record b.attestation { kernel_seq = some seq } }

  abbrev pub enforcement_mode : String → ReceiptBuilder Percent → ReceiptBuilder Percent
  enforcement_mode mode b = record b {
    attestation = record b.attestation { enforcement_mode = mode };
  }

  abbrev pub lsm_hook : String → ReceiptBuilder Percent → ReceiptBuilder Percent
  lsm_hook hook b = record b { attestation = record b.attestation { lsm_hook = hook } }

  abbrev pub chain_id : ℕ → ReceiptBuilder Percent → ReceiptBuilder Percent
  chain_id id b = record b { domain = record b.domain { chain_id = id } }

  abbrev pub verifying_contract : String → ReceiptBuilder Percent → ReceiptBuilder Percent
  verifying_contract addr b = record b { domain = record b.domain { verifying_contract = addr } }

  -- The receipt without its signatures, as `sign` and the two verifications build it.
  abbrev pub unsigned_of : String → ReceiptBuilder Percent → UnsignedReceipt Percent
  unsigned_of did b = record {
    version = "0.1.0";
    mandate_id = b.mandate_id;
    task_id = b.task_id;
    agent_did = did;
    execution = b.execution;
    attestation = b.attestation;
    domain = b.domain;
  }

  abbrev pub strip_signatures : ExecutionReceipt Percent → UnsignedReceipt Percent
  strip_signatures r = record {
    version = r.version;
    mandate_id = r.mandate_id;
    task_id = r.task_id;
    agent_did = r.agent_did;
    execution = r.execution;
    attestation = r.attestation;
    domain = r.domain;
  }

-- The last `min(len, 32)` bytes of a word are the first ones of an address.
abbrev pub contract_word : Option Bytes → Bytes
contract_word none = zeros 32
contract_word (some decoded) =
    zeros (32 - min (length decoded) 32) ++ take (min (length decoded) 32) decoded

module _ (packages : Packages) where
  abbrev pub decode_contract : Option Bytes → Option Bytes
  decode_contract none = none
  decode_contract (some hex) = packages.hex_decode hex

  abbrev pub hash_text : String → Bytes
  hash_text t = packages.keccak256 (packages.as_bytes t)

  pub compute_domain_separator : DomainSeparator → Bytes
  compute_domain_separator domain = packages.keccak256 (
      hash_text
        "EIP712Domain(string name,string version,uint256 chainId,address verifyingContract,bytes32 salt)"
      ++ (hash_text domain.name
          ++ (hash_text domain.version
              ++ (word 8 domain.chain_id
                  ++ (contract_word (
                        decode_contract (
                          strip_prefix (b'0' ∷ b'x' ∷ [])
                            (packages.as_bytes domain.verifying_contract)))
                      ++ hash_text domain.salt)))))

  -- The nine words of the struct hash.
  abbrev pub encoded : UnsignedReceipt packages.Percent → Bytes
  encoded r =
      hash_text
        "ExecutionReceipt(string mandateId,string agentDid,uint32 pid,string binary,string argsHash,int32 exitCode,uint64 durationMs,string enforcementMode)"
      ++ (hash_text r.mandate_id
          ++ (hash_text r.agent_did
              ++ (word 4 r.execution.pid
                  ++ (packages.keccak256 r.execution.binary
                      ++ (hash_text r.execution.args_hash
                          ++ (exit_code_word r.execution.exit_code
                              ++ (word 8 r.execution.duration_ms
                                  ++ hash_text r.attestation.enforcement_mode)))))))

  abbrev pub compute_receipt_struct_hash : UnsignedReceipt packages.Percent → Bytes
  compute_receipt_struct_hash r = packages.keccak256 (encoded r)

  -- 0x19, 0x01, the domain separator and the struct hash.
  pub compute_eip712_hash : UnsignedReceipt packages.Percent → Bytes
  compute_eip712_hash r =
      packages.keccak256
        (25 ∷ 1 ∷ (compute_domain_separator r.domain ++ compute_receipt_struct_hash r))
