-- ===== src/Store/Suite/Tests.antt =====
-- The checks of store/storetest/storetest.go on the store in memory.
use pace.Prelude.{[], none, ◌≢◌}
use pace.Prelude.Int.{pos}
use pace.Store.Suite.{honours_context_cancellation}
use pace.Store.Suite.Subjects.{file_store, file_store_fails}
use pace.Samples.{floats}

file_store_fails_example :
    honours_context_cancellation (file_store floats (λ m. none)) (pos 1) (pos 2) ≢ []
file_store_fails_example = file_store_fails floats (λ m. none) (pos 1) (pos 2)
