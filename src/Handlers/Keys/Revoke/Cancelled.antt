-- ===== src/Handlers/Keys/Revoke/Cancelled.antt =====
-- What the entry of a worker says whose request is cancelled while the gateway is called: the handler
-- with the client of gateway/admin_client.go.
