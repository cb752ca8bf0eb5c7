-- ===== src/Api.antt =====
-- What a call of the API (frontend/src/lib/api/apiClient.ts) comes back with: the calls themselves
-- are the environment's, and a method that waits for one is a function of its answer.
pub data Reply {ℓ} (A : Type ℓ) : Type ℓ where
  ok : A → Reply A
  failed : Reply A
