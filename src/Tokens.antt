-- ===== src/Tokens.antt =====
-- src/tokens: the tokens' certificates. The filter that narrows what a request is offered.
pub mod Filter
