-- ===== src/IocpEvent.antt =====
-- ServerCore/IocpEvent.h: the kinds of completion.
pub data EventType : Type 0 where
  connect disconnect accept recv send : EventType
