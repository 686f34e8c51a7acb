-- ===== src/MainBackend.antt =====
-- src/clients/main_backend/client.py: asking the main backend for users. What aiohttp answers is a
-- parameter.
mod Base
mod Outcomes
mod Tests
