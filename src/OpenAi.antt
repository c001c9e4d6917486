-- ===== src/OpenAi.antt =====
-- The translation between OpenAI's API and Ollama's (openai.go), and the request for an
-- OpenAI-compatible engine (api_handlers.go: buildEngineRequest, openAICompatRequest). What
-- encoding/json makes of a text is a parameter.
pub mod History
pub mod Names
pub mod Request
pub mod Allowed
pub mod Response
pub mod Streaming
