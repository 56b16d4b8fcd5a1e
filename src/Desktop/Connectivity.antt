-- ===== src/Desktop/Connectivity.antt =====
-- The status of a server as the SSH manager reports it: `ConnectionStatus` of
-- src/main/ssh/ssh-manager.ts and of src/main/store/types.ts. `failed` is the source's 'error'.
pub data Connectivity : Type 0 where
  connecting connected reconnecting disconnected failed : Connectivity
