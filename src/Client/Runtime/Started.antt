-- ===== src/Client/Runtime/Started.antt =====
-- Whether the session manager starts the key generation that pallet_tss has opened.
use uomi_node.Prelude.Key.{nat_key}
