-- ===== src/Mempool/Histories.antt =====
-- mempool.go: the pool after any sequence of calls.
use blocknet_core.Prelude.{ℕ, ◌≡◌, List, [], ◌∷◌, Bytes, true, some, some_eq, sym, ◌∙◌}
use blocknet_core.Prelude.Maps.{lookup}
use blocknet_core.Tx.{Transaction}
use blocknet_core.Mempool.{Mempool, Entry, Env, Config, new_mempool, clear}
use blocknet_core.Mempool.Operations.{
  add_transaction, remove_transactions, remove_by_key_image, remove_expired, connect_txs,
  disconnect_txs,
}
use blocknet_core.Mempool.Images.{Inv, spends}
use blocknet_core.Mempool.Remove.{new_mempool-Inv, remove_tx_by_id-Inv}
use blocknet_core.Mempool.Keep.{
  remove_transactions-keeps, remove_by_key_image-keeps, remove_expired-keeps, connect_txs-keeps,
}
use blocknet_core.Mempool.Admission.{add_transaction-Inv}
use blocknet_core.Mempool.Disconnect.{disconnect_txs-Inv}

-- The calls that change the pool, each with the time at which it is made.
pub data Call : Type 0 where
  adds : ℕ → ℕ → Bytes → Call
  removes : List Bytes → Call
  removes_image : Bytes → Call
  expires : ℕ → Call
  connects : List Transaction → Call
  disconnects : ℕ → List (Bytes × Bytes) → List Transaction → Call
  clears : Call

unfoldable pub step : Env → Call → Mempool → Mempool
step env (adds now fee tx_data) m = (add_transaction env now fee tx_data m).0
step env (removes ids) m = remove_transactions ids m
step env (removes_image k) m = remove_by_key_image k m
step env (expires now) m = (remove_expired now m).0
step env (connects txs) m = connect_txs env txs m
step env (disconnects now data_map txs) m = disconnect_txs env now data_map txs m
step env clears m = clear m

-- The chain's answers may change between calls, so each call comes with its own environment.
unfoldable pub run : List (Env × Call) → Mempool → Mempool
run [] m = m
run ((env, c) ∷ cs) m = run cs (step env c m)

step-Inv : (env : Env) (c : Call) (m : Mempool) → Inv m → Inv (step env c m)
unfolding step
step-Inv env (adds now fee tx_data) m v = add_transaction-Inv env now fee tx_data m v
step-Inv env (removes ids) m v = remove_transactions-keeps Inv remove_tx_by_id-Inv ids m v
step-Inv env (removes_image k) m v = remove_by_key_image-keeps Inv remove_tx_by_id-Inv k m v
step-Inv env (expires now) m v = remove_expired-keeps Inv remove_tx_by_id-Inv now m v
step-Inv env (connects txs) m v = connect_txs-keeps Inv remove_tx_by_id-Inv env txs m v
step-Inv env (disconnects now data_map txs) m v = disconnect_txs-Inv env now data_map txs m v
step-Inv env clears m v = unfold clear in unfold new_mempool in new_mempool-Inv m.config

run-Inv : (cs : List (Env × Call)) (m : Mempool) → Inv m → Inv (run cs m)
unfolding run
run-Inv [] m v = v
run-Inv ((env, c) ∷ cs) m v = run-Inv cs (step env c m) (step-Inv env c m v)

-- After any calls on a new pool it is consistent: entries stand under their own IDs, every key image
-- leads to the entry that uses it and back, the queue holds the same entries, and the size in bytes
-- is the sum of theirs.
pub run-new_mempool-Inv : (cfg : Config) (cs : List (Env × Call)) → Inv (run cs (new_mempool cfg))
run-new_mempool-Inv cfg cs = run-Inv cs (new_mempool cfg) (new_mempool-Inv cfg)

-- No sequence of calls on a new pool puts two transactions into the pool that spend the same output: entries that share a
-- key image are one entry.
pub run-no_double_spend :
    (cfg : Config) (cs : List (Env × Call)) (i j k : Bytes) (d e : Entry)
    → lookup i (run cs (new_mempool cfg)).tx_by_id ≡ some d
    → lookup j (run cs (new_mempool cfg)).tx_by_id ≡ some e
    → spends d.tx k ≡ true
    → spends e.tx k ≡ true
    → i ≡ j
run-no_double_spend cfg cs i j k d e hd he sd se =
    let v = run-new_mempool-Inv cfg cs in some_eq (sym (v.image i k d hd sd) ∙ v.image j k e he se)
