-- ===== src/Uuid/Equality.antt =====
-- `ble_host_uuid_equals` compares normal forms, and the texts that the stack prints.
