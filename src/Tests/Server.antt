-- ===== src/Tests/Server.antt =====
-- crates/server at concrete requests and failures, and deduplication at two memories.
use supermemory_rs.Prelude.{
  ℕ, Text, text_eq, codes, true, false, ◌≡◌, ◌↔◌, List, [], ◌∷◌, none, some, ok, leb,
}
use supermemory_rs.Storage.Memories.Dedup.{Unicode, MemoryRecord, deduplicate_memories}
use supermemory_rs.Storage.Memories.Kept.{IsDeduplicated, deduplicate_memories-IsDeduplicated}
use supermemory_rs.Server.Auth.{
  Hash, Request, authenticate, IsAuthorized, authenticate-IsAuthorized,
}

-- Texts that are their own digests.
abbrev plain : Hash
plain = record { Digest = Text; digest = λ t. t; ct_eq = text_eq }

abbrev keys : List (Text × Text)
keys = (codes "sm_1", codes "one") ∷ (codes "sm_2", codes "two") ∷ []

abbrev from_afar : Request
from_afar = record {
  authorization = some (codes "Bearer sm_2");
  has_cookie = false;
  is_loopback = false;
}

authenticate-IsAuthorized_example :
    (authenticate plain keys (codes "local") from_afar ≡ ok (codes "two"))
    ↔ IsAuthorized plain keys (codes "local") from_afar (codes "two")
authenticate-IsAuthorized_example =
    authenticate-IsAuthorized plain keys (codes "local") from_afar (codes "two")

-- Lower-case letters.
abbrev ascii : Unicode
ascii = record { to_lowercase = λ t. t; is_alphanumeric = λ c. leb b'a' c }

abbrev memory_at : Text → MemoryRecord ℕ
memory_at text = record {
  id = codes "mem_1";
  memory = text;
  metadata = [];
  is_inferred = false;
  is_static = false;
  is_latest = true;
  is_forgotten = false;
  root_memory_id = none;
  parent_memory_id = none;
  version = 1;
  forget_after = none;
  forget_reason = none;
  created_at = codes "t";
  updated_at = codes "t";
}

abbrev twice : List (MemoryRecord ℕ)
twice = memory_at (codes "likes tea") ∷ memory_at (codes "likes, tea.") ∷ []

deduplicate_memories-IsDeduplicated_example :
    IsDeduplicated ascii twice 5 [] (deduplicate_memories ascii twice 5 [])
deduplicate_memories-IsDeduplicated_example = deduplicate_memories-IsDeduplicated ascii twice 5 []
