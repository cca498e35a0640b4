-- ===== src/Notify/Fault.antt =====
-- What a claim's statement meets (identity/store): an answer, a failure before it takes effect, or a
-- reply that is lost after it did.
pub data ClaimFault : Type 0 where
  answers fails reply_lost : ClaimFault
