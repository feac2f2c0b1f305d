-- ===== src/Prelude/Status.antt =====
-- include/kura/metadata/core/status_code.hpp.
pub data StatusCode : Type 0 where
  ok invalid_argument comparison_failed compacted future_revision lease_not_found not_leader
        no_quorum deadline_exceeded permission_denied quota_exceeded corruption :
      StatusCode
