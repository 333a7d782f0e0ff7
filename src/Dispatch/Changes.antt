-- ===== src/Dispatch/Changes.antt =====
-- The commands of backend/internal/networking/server.go that change the store and log themselves as they came.
use cachestack.Base.{List, [], ◌∷◌}
use cachestack.Text.{text}
use cachestack.Command.{Bytes, Command}

-- Commands that change the store and are logged as they came.
pub data IsChange : Command → Type 0 where
  set_change : (key v : Bytes) → IsChange (record { name = text "SET"; args = key ∷ v ∷ [] })
  del_change :
      (key : Bytes) (keys : List Bytes) → IsChange (record { name = text "DEL"; args = key ∷ keys })
  lpush_change :
      (key v : Bytes) (vs : List Bytes)
      → IsChange (record { name = text "LPUSH"; args = key ∷ v ∷ vs })
  rpush_change :
      (key v : Bytes) (vs : List Bytes)
      → IsChange (record { name = text "RPUSH"; args = key ∷ v ∷ vs })
  sadd_change :
      (key v : Bytes) (vs : List Bytes)
      → IsChange (record { name = text "SADD"; args = key ∷ v ∷ vs })
  flush_change : IsChange (record { name = text "FLUSHALL"; args = [] })
